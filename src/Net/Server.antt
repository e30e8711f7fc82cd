-- ===== src/Net/Server.antt =====
-- TcpServer of src/_public.cpp, as TcpClient.
use idc.Prelude.{
  Bytes, ℕ, zero, Bool, true, false, not, ◌&&◌, ◌∷◌, Result, ok, ◌>>=◌, if◌then◌else◌, ℤ, pos,
}
use idc.Net.Stream.{Incoming, Outgoing}
use idc.Net.Frame.{is_minus_one, is_above_zero, tcp_read, message_length, tcp_write}
use idc.Net.Client.{Ledger, minus_one, shut, is_negative, Poll, is_readable, is_timed_out}

-- `socklen` is m_socklen; the addresses are the system's.
pub record TcpServer : Type 0 where
  pub listenfd : ℤ
  pub connfd : ℤ
  pub socklen : ℕ
  pub btimeout : Bool
  pub buflen : ℕ

unfoldable pub make_server : ℕ → TcpServer
make_server buflen = record {
  listenfd = minus_one;
  connfd = minus_one;
  socklen = 0;
  btimeout = false;
  buflen = buflen;
}

unfoldable pub close_listen : TcpServer → Ledger → TcpServer × Ledger
close_listen s ledger =
    if is_above_zero s.listenfd
    then (record s { listenfd = minus_one }, shut ledger s.listenfd)
    else (s, ledger)

unfoldable pub close_client_socket : TcpServer → Ledger → TcpServer × Ledger
close_client_socket s ledger =
    if is_above_zero s.connfd
    then (record s { connfd = minus_one }, shut ledger s.connfd)
    else (s, ledger)

-- A failure of bind() or listen()
unfoldable pub refuse : TcpServer → Ledger → Bool × TcpServer × Ledger
unfolding close_listen
refuse s ledger = let (s', ledger') = close_listen s ledger in (false, s', ledger')

-- InitServer. `fd` is what socket() gives, `bound` and `listens` whether bind() and listen() succeed.
unfoldable pub init_server : TcpServer → Ledger → ℤ → Bool → Bool → Bool × TcpServer × Ledger
unfolding close_listen refuse
init_server s ledger fd bound listens =
    let (s₁, ledger₁) = close_listen s ledger in
    let s₂ = record s₁ { listenfd = fd } in
    let ledger₂ =
      if is_negative fd then ledger₁ else record ledger₁ { opened = fd ∷ ledger₁.opened } in
    if not (is_above_zero fd)
    then (false, s₂, ledger₂)
    else if not bound
    then refuse s₂ ledger₂
    else if not listens
    then refuse s₂ ledger₂
    else (true, s₂, ledger₂)

-- Accept. `fd` is what accept() gives; sizeof(struct sockaddr_in) is 16.
unfoldable pub accept : TcpServer → Ledger → ℤ → Bool × TcpServer × Ledger
accept s ledger fd =
    if is_minus_one s.listenfd
    then (false, s, ledger)
    else let s' = record s { socklen = 16; connfd = fd } in
      if is_negative fd
      then (false, s', ledger)
      else (true, s', record ledger { opened = fd ∷ ledger.opened })

-- The call of poll() in Read
unfoldable pub server_wait : TcpServer → ℤ → Poll → TcpServer
server_wait s itimeout polled =
    if is_above_zero itimeout then record s { btimeout = is_timed_out polled } else s

unfoldable pub server_read :
    TcpServer → Bytes → ℤ → Poll → Incoming → Result (Bool × TcpServer × Bytes × Incoming)
unfolding tcp_read server_wait
server_read s buffer itimeout polled incoming =
    if is_minus_one s.connfd
    then ok (false, s, buffer, incoming)
    else let waited = server_wait s itimeout polled in
      if is_above_zero itimeout && not (is_readable polled)
      then ok (false, waited, buffer, incoming)
      else tcp_read waited.connfd true (pos 0) buffer 0 incoming >>= λ m.
          ok (m.success, record waited { buflen = m.ibuflen }, m.buffer, m.incoming)

unfoldable pub server_write : TcpServer → Bytes → ℤ → Outgoing → Result (Bool × Outgoing)
unfolding message_length tcp_write
server_write s buffer ibuflen out = elim (is_minus_one s.connfd) [
  | true ↦ ok (false, out)
  | false ↦ elim ibuflen [
    | pos zero ↦ message_length buffer (pos 0) >>= λ ilen. tcp_write s.connfd buffer (pos ilen) out
    | n ↦ tcp_write s.connfd buffer n out
  ]
]

-- The destructor
unfoldable pub server_destroy : TcpServer → Ledger → TcpServer × Ledger
unfolding close_listen close_client_socket
server_destroy s ledger =
    let (s', ledger') = close_listen s ledger in close_client_socket s' ledger'
