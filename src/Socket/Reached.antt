-- ===== src/Socket/Reached.antt =====
-- Socket of src/socket.cpp: the states that its operations reach.
use idc.Prelude.{
  ℕ, ◌≡◌, refl, inl, inr, Bool, true, false, Bool-cases, [], Option, none, some, ok, ok, Whenever,
  Whenever-then, Whenever-eq, ℤ, pos,
}
use idc.Address.{IPv4Address}
use idc.Net.Frame.{is_minus_one}
use idc.Net.Client.{Ledger}
use idc.Socket.{
  Socket, create_tcp_socket, create_udp_socket, make_socket, get_local_address, get_remote_address,
  init, accept, bind, close, connect, reconnect, opened_one,
}
use idc.Socket.Descriptors.{
  IsKept, new_sock-IsKept, close-IsKept, get_local_address-IsKept, get_remote_address-IsKept,
  init-IsKept, bind-IsKept, connect-IsKept, reconnect-IsKept,
}

-- The operations of a socket, in any order, each with what the system gives.
pub data SocketStep : Socket → Ledger → Socket → Ledger → Type 0 where
  bound :
      (s : Socket) (ledger : Ledger) (addr : Option IPv4Address) (fd : ℤ) (done : Bool)
      (name : Option IPv4Address) (r : Bool × Socket × Ledger)
      → bind s ledger addr fd done name ≡ ok r
      → SocketStep s ledger r.1 r.2
  connected :
      (s : Socket) (ledger : Ledger) (addr : Option IPv4Address) (waits : Bool) (fd : ℤ)
      (accepted : Bool) (peer name : Option IPv4Address) (r : Bool × Socket × Ledger)
      → connect s ledger addr waits fd accepted peer name ≡ ok r
      → SocketStep s ledger r.1 r.2
  reconnected :
      (s : Socket) (ledger : Ledger) (waits : Bool) (fd : ℤ) (accepted : Bool)
      (peer name : Option IPv4Address) (r : Bool × Socket × Ledger)
      → reconnect s ledger waits fd accepted peer name ≡ ok r
      → SocketStep s ledger r.1 r.2
  asked_local :
      (s : Socket) (ledger : Ledger) (name : Option IPv4Address) (r : Option IPv4Address × Socket)
      → get_local_address s name ≡ ok r
      → SocketStep s ledger r.1 ledger
  asked_remote :
      (s : Socket) (ledger : Ledger) (peer : Option IPv4Address) (r : Option IPv4Address × Socket)
      → get_remote_address s peer ≡ ok r
      → SocketStep s ledger r.1 ledger
  shut_down :
      (s : Socket) (ledger : Ledger) → SocketStep s ledger (close s ledger).1 (close s ledger).2

abbrev pub no_ledger : Ledger
no_ledger = record { opened = []; closed = [] }

-- A socket, whose ledger begins with it, is made for TCP or for UDP or by accept.
pub data SocketReached : Bool → Socket → Ledger → Type 0 where
  for_tcp : (family : ℕ) → SocketReached false (create_tcp_socket family) no_ledger
  for_udp :
      (family : ℕ) (fd : ℤ)
      → SocketReached true
          (create_udp_socket family no_ledger fd).0
          (create_udp_socket family no_ledger fd).1
  taken :
      (d : Bool) (listener s : Socket) (fd : ℤ) (name peer : Option IPv4Address) (ledger : Ledger)
      → accept listener no_ledger fd name peer ≡ ok (some s, ledger)
      → SocketReached d s ledger
  then_step :
      (d : Bool) (s s' : Socket) (ledger ledger' : Ledger)
      → SocketReached d s ledger
      → SocketStep s ledger s' ledger'
      → SocketReached d s' ledger'

SocketStep-IsKept :
    (d : Bool) (s : Socket) (ledger : Ledger) (s' : Socket) (ledger' : Ledger)
    → SocketStep s ledger s' ledger'
    → IsKept d s ledger
    → IsKept d s' ledger'
SocketStep-IsKept d s ledger s' ledger' (bound v l addr fd done name r e) h =
    Whenever-eq (bind v l addr fd done name) r (λ r. IsKept d r.1 r.2)
      (bind-IsKept d v l addr fd done name h) e
SocketStep-IsKept d s ledger s' ledger' (connected v l addr waits fd accepted peer name r e) h =
    Whenever-eq (connect v l addr waits fd accepted peer name) r (λ r. IsKept d r.1 r.2)
      (connect-IsKept d v l addr waits fd accepted peer name h) e
SocketStep-IsKept d s ledger s' ledger' (reconnected v l waits fd accepted peer name r e) h =
    Whenever-eq (reconnect v l waits fd accepted peer name) r (λ r. IsKept d r.1 r.2)
      (reconnect-IsKept d v l waits fd accepted peer name h) e
SocketStep-IsKept d s ledger s' ledger' (asked_local v l name r e) h =
    Whenever-eq (get_local_address v name) r (λ r. IsKept d r.1 l)
      (get_local_address-IsKept d v l name h) e
SocketStep-IsKept d s ledger s' ledger' (asked_remote v l peer r e) h =
    Whenever-eq (get_remote_address v peer) r (λ r. IsKept d r.1 l)
      (get_remote_address-IsKept d v l peer h) e
SocketStep-IsKept d s ledger s' ledger' (shut_down v l) h = close-IsKept d v l h

-- Whether a result of accept is kept, if there is one.
abbrev TakenKept : Bool → Option Socket → Ledger → Type 0
TakenKept d none ledger = Unit {0}
TakenKept d (some s) ledger = IsKept d s ledger

accept-TakenKept :
    (d : Bool) (listener : Socket) (fd : ℤ) (name peer : Option IPv4Address)
    → Whenever (accept listener no_ledger fd name peer) (λ (s, ledger). TakenKept d s ledger)
unfolding accept
accept-TakenKept d listener fd name peer = elim (Bool-cases (is_minus_one fd)) [
  | inl e ↦ rw (e, accept) tt
  | inr e ↦
      rw (e, accept)
        (Whenever-then
          (init (make_socket listener.family listener.type listener.protocol) fd name peer) _
          (λ s'. IsKept d s' (opened_one no_ledger fd)) (λ (s, ledger). TakenKept d s ledger)
          (init-IsKept d (make_socket listener.family listener.type listener.protocol) fd name peer
            no_ledger e refl)
          (λ s' kept. kept))
]

-- In every state of a socket, all descriptors that it opened or was given by accept are closed, once
-- each, but for the one that it has, if it has one; a socket that is not for UDP and has none is not
-- connected.
pub SocketReached-IsKept :
    (d : Bool) (s : Socket) (ledger : Ledger) → SocketReached d s ledger → IsKept d s ledger
unfolding create_tcp_socket create_udp_socket make_socket
SocketReached-IsKept d s ledger (for_tcp family) = inl (refl, refl, refl)
SocketReached-IsKept d s ledger (for_udp family fd) =
    new_sock-IsKept true (record (make_socket family 2 (pos 0)) { is_connected = true }) no_ledger
      fd refl refl
SocketReached-IsKept d s ledger (taken x listener v fd name peer l e) =
    Whenever-eq (accept listener no_ledger fd name peer) (some v, l)
      (λ (s, ledger). TakenKept x s ledger) (accept-TakenKept x listener fd name peer) e
SocketReached-IsKept d s ledger (then_step x v w l m h step) =
    SocketStep-IsKept x v l w m step (SocketReached-IsKept x v l h)
