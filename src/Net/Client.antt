-- ===== src/Net/Client.antt =====
-- TcpClient of src/_public.cpp. What the system calls give is an argument; the descriptors that they
-- open and close are kept in a ledger.
pub mod Descriptors
use idc.Prelude.{
  Bytes, ℕ, zero, suc, Bool, true, false, not, ◌&&◌, List, [], ◌∷◌, Option, none, some, Result, ok,
  fault, ◌>>=◌, if◌then◌else◌, ltb, ◌==◌, ℤ, pos, negsuc, replicate,
}
use idc.Strings.{safe_strcpy}
use idc.Net.Stream.{Incoming, Outgoing}
use idc.Net.Frame.{is_minus_one, is_above_zero, Message, tcp_read, message_length, tcp_write}

pub record TcpClient : Type 0 where
  pub connfd : ℤ
  pub ip : Bytes
  pub port : ℤ
  pub btimeout : Bool
  pub buflen : ℕ

-- The descriptors that socket() gave and that close() was called for, the last one first.
pub record Ledger : Type 0 where
  pub opened : List ℤ
  pub closed : List ℤ

abbrev pub minus_one : ℤ
minus_one = negsuc 0

abbrev pub shut : Ledger → ℤ → Ledger
shut ledger fd = record ledger { closed = fd ∷ ledger.closed }

-- The constructor, which leaves m_buflen as it is in memory.
unfoldable pub make_client : ℕ → TcpClient
make_client buflen = record {
  connfd = minus_one;
  ip = replicate 21 0;
  port = pos 0;
  btimeout = false;
  buflen = buflen;
}

abbrev pub is_negative : ℤ → Bool
is_negative (pos n) = false
is_negative (negsuc n) = true

-- ConnectToServer before it asks for a socket.
unfoldable pub disconnect : TcpClient → Ledger → TcpClient × Ledger
disconnect c ledger =
    if is_minus_one c.connfd
    then (c, ledger)
    else (record c { connfd = minus_one }, shut ledger c.connfd)

-- A failure behind socket()
unfoldable pub give_up : TcpClient → Ledger → Bool × TcpClient × Ledger
give_up c ledger = (false, record c { connfd = minus_one }, shut ledger c.connfd)

-- ConnectToServer from the call of socket() on, which gives `fd`; `resolved` and `accepted` are whether
-- gethostbyname and connect succeed.
unfoldable pub try_connect : TcpClient → Ledger → ℤ → Bool → Bool → Bool × TcpClient × Ledger
unfolding give_up
try_connect c ledger fd resolved accepted =
    let c' = record c { connfd = fd } in
    let ledger' = record ledger { opened = fd ∷ ledger.opened } in
    if is_negative fd
    then (false, c', ledger)
    else if not resolved
    then give_up c' ledger'
    else if not accepted
    then give_up c' ledger'
    else (true, c', ledger')

-- The address and the port are kept.
unfoldable pub store_address : TcpClient → Option Bytes → ℤ → Result TcpClient
unfolding safe_strcpy
store_address c ip port = safe_strcpy (some c.ip) 21 ip >>= λ copied. elim copied [
  | none ↦ ok (record c { port = port })
  | some m_ip ↦ ok (record c { ip = m_ip; port = port })
]

unfoldable pub connect_to_server :
    TcpClient → Ledger → Option Bytes → ℤ → ℤ → Bool → Bool → Result (Bool × TcpClient × Ledger)
unfolding disconnect store_address try_connect
connect_to_server c ledger ip port fd resolved accepted =
    let (c', ledger') = disconnect c ledger in
    store_address c' ip port >>= λ stored. ok (try_connect stored ledger' fd resolved accepted)

-- What poll() gives.
pub data Poll : Type 0 where
  failing timed_out readable : Poll

abbrev pub is_readable : Poll → Bool
is_readable failing = false
is_readable timed_out = false
is_readable readable = true

abbrev pub is_timed_out : Poll → Bool
is_timed_out failing = false
is_timed_out timed_out = true
is_timed_out readable = false

-- The call of poll() in Read
unfoldable pub client_wait : TcpClient → ℤ → Poll → TcpClient
client_wait c itimeout polled =
    if is_above_zero itimeout then record c { btimeout = is_timed_out polled } else c

-- Read: the result, the client, the buffer and what is left on the stream.
unfoldable pub client_read :
    TcpClient → Bytes → ℤ → Poll → Incoming → Result (Bool × TcpClient × Bytes × Incoming)
unfolding tcp_read client_wait
client_read c buffer itimeout polled s =
    if is_minus_one c.connfd
    then ok (false, c, buffer, s)
    else let waited = client_wait c itimeout polled in
      if is_above_zero itimeout && not (is_readable polled)
      then ok (false, waited, buffer, s)
      else tcp_read waited.connfd true (pos 0) buffer 0 s >>= λ m.
          ok (m.success, record waited { buflen = m.ibuflen }, m.buffer, m.incoming)

-- Write. A length of zero goes to TcpWrite as it is found.
unfoldable pub client_write : TcpClient → Bytes → ℤ → Outgoing → Result (Bool × Outgoing)
unfolding message_length tcp_write
client_write c buffer ibuflen s = elim (is_minus_one c.connfd) [
  | true ↦ ok (false, s)
  | false ↦ elim ibuflen [
    | pos zero ↦ message_length buffer (pos 0) >>= λ ilen. tcp_write c.connfd buffer (pos ilen) s
    | n ↦ tcp_write c.connfd buffer n s
  ]
]

-- Close, which the destructor calls.
unfoldable pub client_close : TcpClient → Ledger → TcpClient × Ledger
client_close c ledger = (
  record c { connfd = minus_one; ip = replicate 21 0; port = pos 0; btimeout = false },
  if is_above_zero c.connfd then shut ledger c.connfd else ledger,
)
