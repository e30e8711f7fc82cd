-- ===== src/Socket.antt =====
-- src/socket.cpp and include/socket.h. What the system calls give is an argument; the descriptors that
-- they open and close are kept in a ledger. AF_UNIX, AF_INET and AF_INET6 are 1, 2 and 10, SOCK_STREAM
-- and SOCK_DGRAM 1 and 2.
pub mod Descriptors
pub mod Reached
use idc.Prelude.{
  Bytes, ℕ, Bool, true, false, not, ◌&&◌, ◌||◌, [], ◌∷◌, ◌++◌, Option, none, some, Result, ok,
  fault, ◌>>=◌, bad_access, if◌then◌else◌, ◌==◌, ℤ, pos, negsuc, div_ℤ, mod_ℤ, ◌*ℤ◌,
}
use idc.Text.{codes}
use idc.Text.Decimal.{to_string}
use idc.Address.{IPv4Address, address_to_string}
use idc.Net.Frame.{is_minus_one}
use idc.Net.Client.{Ledger, shut, minus_one}

pub record Socket : Type 0 where
  pub sock : ℤ
  pub family : ℕ
  pub type : ℕ
  pub protocol : ℤ
  pub is_connected : Bool
  pub local_address : Option IPv4Address
  pub remote_address : Option IPv4Address

-- The constructor
unfoldable pub make_socket : ℕ → ℕ → ℤ → Socket
make_socket family type protocol = record {
  sock = minus_one;
  family = family;
  type = type;
  protocol = protocol;
  is_connected = false;
  local_address = none;
  remote_address = none;
}

abbrev pub opened_one : Ledger → ℤ → Ledger
opened_one ledger fd = record ledger { opened = fd ∷ ledger.opened }

unfoldable pub is_valid : Socket → Bool
is_valid s = not (is_minus_one s.sock)

-- newSock of what socket() gives. The options that initSock sets do not change what follows.
unfoldable pub new_sock : Socket → Ledger → ℤ → Socket × Ledger
new_sock s ledger fd =
    (record s { sock = fd }, if is_minus_one fd then ledger else opened_one ledger fd)

-- CreateTCPSocket, CreateTCPSocket6 and CreateUnixTCPSocket for the families 2, 10 and 1
unfoldable pub create_tcp_socket : ℕ → Socket
unfolding make_socket
create_tcp_socket family = make_socket family 1 (pos 0)

-- CreateUDPSocket, CreateUDPSocket6 and CreateUnixUDPSocket
unfoldable pub create_udp_socket : ℕ → Ledger → ℤ → Socket × Ledger
unfolding make_socket new_sock
create_udp_socket family ledger fd =
    let (s, ledger') = new_sock (make_socket family 2 (pos 0)) ledger fd in
    (record s { is_connected = true }, ledger')

-- CreateTCP and CreateUDP
unfoldable pub create_tcp : Option IPv4Address → Result Socket
unfolding create_tcp_socket
create_tcp none = fault bad_access
create_tcp (some address) = ok (create_tcp_socket address.sin_family)

unfoldable pub create_udp : Option IPv4Address → Ledger → ℤ → Result (Socket × Ledger)
unfolding create_udp_socket
create_udp none ledger fd = fault bad_access
create_udp (some address) ledger fd = ok (create_udp_socket address.sin_family ledger fd)

-- getRemoteAddress and getLocalAddress: the pointer `result` is null for families other than AF_INET.
-- The last argument is what getpeername and getsockname write.
unfoldable pub get_remote_address :
    Socket → Option IPv4Address → Result (Option IPv4Address × Socket)
get_remote_address s peer = elim s.remote_address [
  | some a ↦ ok (some a, s)
  | none ↦ if s.family == 2 then ok (peer, record s { remote_address = peer }) else fault bad_access
]

unfoldable pub get_local_address :
    Socket → Option IPv4Address → Result (Option IPv4Address × Socket)
get_local_address s name = elim s.local_address [
  | some a ↦ ok (some a, s)
  | none ↦ if s.family == 2 then ok (name, record s { local_address = name }) else fault bad_access
]

-- init
unfoldable pub init : Socket → ℤ → Option IPv4Address → Option IPv4Address → Result Socket
unfolding get_local_address get_remote_address
init s fd name peer =
    get_local_address (record s { sock = fd; is_connected = true }) name >>= λ named.
    get_remote_address named.1 peer >>= λ met. ok met.1

-- accept of what the system call gives
unfoldable pub accept :
    Socket → Ledger → ℤ → Option IPv4Address → Option IPv4Address → Result (Option Socket × Ledger)
unfolding make_socket init
accept s ledger fd name peer =
    if is_minus_one fd
    then ok (none, ledger)
    else init (make_socket s.family s.type s.protocol) fd name peer >>= λ client.
        ok (some client, opened_one ledger fd)

-- What bind and connect start with: a descriptor, if there is none yet.
unfoldable pub ensure_sock : Socket → Ledger → ℤ → Socket × Ledger
unfolding is_valid new_sock
ensure_sock s ledger fd = if is_valid s then (s, ledger) else new_sock s ledger fd

-- bind: `fd` is what socket() gives, `bound` whether the system call succeeds.
unfoldable pub bind :
    Socket
    → Ledger
    → Option IPv4Address
    → ℤ
    → Bool
    → Option IPv4Address
    → Result (Bool × Socket × Ledger)
unfolding ensure_sock is_valid get_local_address
bind s ledger addr fd bound name =
    let (s', ledger') = ensure_sock s ledger fd in
    if not (is_valid s') then ok (false, s', ledger') else elim addr [
      | none ↦ fault bad_access
      | some address ↦
          if not (address.sin_family == s'.family) || not bound
          then ok (false, s', ledger')
          else get_local_address s' name >>= λ named. ok (true, named.1, ledger')
    ]

unfoldable pub listen : Socket → Bool → Bool
unfolding is_valid
listen s listened = is_valid s && listened

-- close, which the destructor calls
unfoldable pub close : Socket → Ledger → Bool × Socket × Ledger
unfolding is_valid
close s ledger =
    if not s.is_connected && not (is_valid s)
    then (true, s, ledger)
    else if is_valid s
    then (false, record s { is_connected = false; sock = minus_one }, shut ledger s.sock)
    else (false, record s { is_connected = false }, ledger)

-- connect with a descriptor: `waits` is whether timeout_ms is (uint64_t)-1, `accepted` whether the
-- system call succeeds.
unfoldable pub try_connect :
    Socket
    → Ledger
    → Bool
    → Bool
    → Option IPv4Address
    → Option IPv4Address
    → Result (Bool × Socket × Ledger)
unfolding close get_remote_address get_local_address
try_connect s ledger waits accepted peer name =
    if not waits
    then ok (false, s, ledger)
    else if not accepted
    then (let (closed, s', ledger') = close s ledger in ok (false, s', ledger'))
    else get_remote_address (record s { is_connected = true }) peer >>= λ met.
        get_local_address met.1 name >>= λ named. ok (true, named.1, ledger)

unfoldable pub connect :
    Socket
    → Ledger
    → Option IPv4Address
    → Bool
    → ℤ
    → Bool
    → Option IPv4Address
    → Option IPv4Address
    → Result (Bool × Socket × Ledger)
unfolding ensure_sock is_valid try_connect
connect s ledger addr waits fd accepted peer name =
    let (s', ledger') = ensure_sock (record s { remote_address = addr }) ledger fd in
    if not (is_valid s') then ok (false, s', ledger') else elim addr [
      | none ↦ fault bad_access
      | some address ↦
          if not (address.sin_family == s'.family)
          then ok (false, s', ledger')
          else try_connect s' ledger' waits accepted peer name
    ]

unfoldable pub reconnect :
    Socket
    → Ledger
    → Bool
    → ℤ
    → Bool
    → Option IPv4Address
    → Option IPv4Address
    → Result (Bool × Socket × Ledger)
unfolding connect
reconnect s ledger waits fd accepted peer name = elim s.remote_address [
  | none ↦ ok (false, s, ledger)
  | some a ↦ connect (record s { local_address = none }) ledger (some a) waits fd accepted peer name
]

-- send, recv and those for several buffers, of what the system call gives
unfoldable pub transfer : Socket → ℤ → ℤ
transfer s result = if s.is_connected then result else minus_one

-- sendTo and recvFrom, which read the length of the address
unfoldable pub transfer_with : Socket → Option IPv4Address → ℤ → Result ℤ
transfer_with s address result =
    if not s.is_connected
    then ok minus_one
    else elim address [ none ↦ fault bad_access | some a ↦ ok result ]

-- getError of whether getsockopt succeeds, the error it writes, and errno
unfoldable pub get_error : Bool → ℤ → ℤ → ℤ
get_error success error errno = if success then error else errno

-- The timeval of setSendTimeout and setRecvTimeout, for an `int64_t` whose seconds fit an int.
unfoldable pub time_value : ℤ → ℤ × ℤ
time_value v = (div_ℤ v 1000, mod_ℤ v 1000 *ℤ pos 1000)

abbrev address_field : Bytes → Option IPv4Address → Bytes
address_field name none = []
address_field name (some a) = name ++ address_to_string a

-- dump, and toString
unfoldable pub socket_to_string : Socket → Bytes
unfolding address_to_string to_string
socket_to_string s =
    codes "[Socket sock="
    ++ (to_string s.sock
        ++ (codes " is_connected="
            ++ ((if s.is_connected then codes "1" else codes "0")
                ++ (codes " family="
                    ++ (to_string (pos s.family)
                        ++ (codes " type="
                            ++ (to_string (pos s.type)
                                ++ (codes " protocol="
                                    ++ (to_string s.protocol
                                        ++ (address_field (codes " local_address=") s.local_address
                                            ++ (address_field (codes " remote_address=")
                                                  s.remote_address
                                                ++ codes "]")))))))))))
