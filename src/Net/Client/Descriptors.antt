-- ===== src/Net/Client/Descriptors.antt =====
-- TcpClient of src/_public.cpp: which descriptors are open.
use idc.Prelude.{
  if◌then◌else◌, List, Bytes, ℕ, ◌≡◌, refl, sym, ap, ◌⊎◌, inl, inr, Bool, true, false, not, ◌&&◌,
  Bool-cases, [], ◌∷◌, Option, ok, subst, Whenever, Whenever-bind, Whenever-eq, ℤ, pos, negsuc,
}
use idc.Net.Stream.{Incoming}
use idc.Net.Frame.{tcp_read, is_minus_one, is_above_zero}
use idc.Net.Client.{
  TcpClient, Ledger, make_client, is_negative, minus_one, disconnect, give_up, try_connect,
  store_address, Poll, is_readable, client_read, client_wait, connect_to_server, client_close,
}

-- What socket() gives: -1 or a descriptor.
abbrev pub IsSocket : ℤ → Type 0
IsSocket fd = (fd ≡ minus_one) ⊎ (is_negative fd ≡ false)

-- The descriptors above zero
abbrev pub positives : List ℤ → List ℤ
positives [] = []
positives (fd ∷ fds) = if is_above_zero fd then fd ∷ positives fds else positives fds

-- Of the descriptors above zero, all that were opened are closed, once each and in that order, but for
-- the one that the client has.
abbrev pub IsBalanced : TcpClient → Ledger → Type 0
IsBalanced c ledger =
    IsSocket c.connfd × (positives ledger.opened ≡ positives (c.connfd ∷ ledger.closed))

-- A client without a descriptor
abbrev IsIdle : TcpClient × Ledger → Type 0
IsIdle (c, ledger) = (c.connfd ≡ minus_one) × (positives ledger.opened ≡ positives ledger.closed)

not_minus_one : (fd : ℤ) → is_negative fd ≡ false → is_minus_one fd ≡ false
not_minus_one (pos n) h = refl
not_minus_one (negsuc n) h = absurd (cc h)

disconnect-IsIdle :
    (c : TcpClient) (ledger : Ledger) → IsBalanced c ledger → IsIdle (disconnect c ledger)
unfolding disconnect
disconnect-IsIdle c ledger (inl e, same) = rw (e, disconnect) (refl, rw e at same)
disconnect-IsIdle c ledger (inr h, one) = rw (not_minus_one c.connfd h, disconnect) (refl, one)

positives-cons :
    (fd : ℤ) (xs ys : List ℤ)
    → positives xs ≡ positives ys
    → positives (fd ∷ xs) ≡ positives (fd ∷ ys)
positives-cons fd xs ys same = ap (λ fds. if is_above_zero fd then fd ∷ fds else fds) same

try_connect-IsBalanced :
    (c : TcpClient) (ledger : Ledger) (fd : ℤ) (resolved accepted : Bool)
    → IsSocket fd
    → positives ledger.opened ≡ positives ledger.closed
    → let r = try_connect c ledger fd resolved accepted in IsBalanced r.1 r.2
unfolding try_connect give_up
try_connect-IsBalanced c ledger fd resolved accepted (inl e) same =
    rw (e, try_connect) (inl refl, same)
try_connect-IsBalanced c ledger fd false accepted (inr h) same =
    rw (h, try_connect) (inl refl, positives-cons fd ledger.opened ledger.closed same)
try_connect-IsBalanced c ledger fd true false (inr h) same =
    rw (h, try_connect) (inl refl, positives-cons fd ledger.opened ledger.closed same)
try_connect-IsBalanced c ledger fd true true (inr h) same =
    rw (h, try_connect) (inr h, positives-cons fd ledger.opened ledger.closed same)

connect_to_server-IsBalanced :
    (c : TcpClient) (ledger : Ledger) (ip : Option Bytes) (port fd : ℤ) (resolved accepted : Bool)
    → IsBalanced c ledger
    → IsSocket fd
    → Whenever (connect_to_server c ledger ip port fd resolved accepted) (λ r. IsBalanced r.1 r.2)
unfolding connect_to_server
connect_to_server-IsBalanced c ledger ip port fd resolved accepted balanced socket =
    let idle = disconnect c ledger in
    Whenever-bind (store_address idle.0 ip port) _ (λ r. IsBalanced r.1 r.2)
      (λ stored.
        try_connect-IsBalanced stored idle.1 fd resolved accepted socket
          (disconnect-IsIdle c ledger balanced).1)

client_close-IsBalanced :
    (c : TcpClient) (ledger : Ledger)
    → IsBalanced c ledger
    → let (c', ledger') = client_close c ledger in IsBalanced c' ledger'
unfolding client_close
client_close-IsBalanced c ledger (socket, same) = elim (Bool-cases (is_above_zero c.connfd)) [
  | inl above ↦ rw (above, client_close) (inl refl, same)
  | inr low ↦ rw (low, client_close) (inl refl, rw low at same)
]

-- Close forgets descriptor zero without a call of close().
pub client_close_zero :
    (c : TcpClient) (ledger : Ledger)
    → c.connfd ≡ pos 0
    → ((client_close c ledger).0.connfd ≡ minus_one) × ((client_close c ledger).1 ≡ ledger)
unfolding client_close
client_close_zero c ledger e = rw (e, client_close) (refl, refl)

-- The operations of a client, in any order, each with what the system gives.
pub data ClientStep : TcpClient → Ledger → TcpClient → Ledger → Type 0 where
  connected :
      (c : TcpClient) (ledger : Ledger) (ip : Option Bytes) (port fd : ℤ) (resolved accepted : Bool)
      (r : Bool × TcpClient × Ledger)
      → IsSocket fd
      → connect_to_server c ledger ip port fd resolved accepted ≡ ok r
      → ClientStep c ledger r.1 r.2
  read_from :
      (c : TcpClient) (ledger : Ledger) (buffer : Bytes) (itimeout : ℤ) (polled : Poll)
      (s : Incoming) (r : Bool × TcpClient × Bytes × Incoming)
      → client_read c buffer itimeout polled s ≡ ok r
      → ClientStep c ledger r.1 ledger
  shut_down :
      (c : TcpClient) (ledger : Ledger)
      → ClientStep c ledger (client_close c ledger).0 (client_close c ledger).1

pub data ClientReached : TcpClient → Ledger → Type 0 where
  constructed :
      (buflen : ℕ) → ClientReached (make_client buflen) (record { opened = []; closed = [] })
  then_step :
      (c c' : TcpClient) (ledger ledger' : Ledger)
      → ClientReached c ledger
      → ClientStep c ledger c' ledger'
      → ClientReached c' ledger'

client_wait_connfd :
    (c : TcpClient) (itimeout : ℤ) (polled : Poll)
    → (client_wait c itimeout polled).connfd ≡ c.connfd
unfolding client_wait
client_wait_connfd c itimeout polled = elim (Bool-cases (is_above_zero itimeout)) [
  | inl waits ↦ rw (waits, client_wait) refl
  | inr goes ↦ rw (goes, client_wait) refl
]

client_read_connfd :
    (c : TcpClient) (buffer : Bytes) (itimeout : ℤ) (polled : Poll) (s : Incoming)
    → Whenever (client_read c buffer itimeout polled s) (λ r. r.1.connfd ≡ c.connfd)
unfolding client_read
client_read_connfd c buffer itimeout polled s = elim (Bool-cases (is_minus_one c.connfd)) [
  | inl idle ↦ rw (idle, client_read) refl
  | inr h ↦ elim (Bool-cases (is_above_zero itimeout && not (is_readable polled))) [
    | inl w ↦ rw (h, w, client_read) (client_wait_connfd c itimeout polled)
    | inr w ↦
        rw (h, w, client_read)
          (Whenever-bind (tcp_read (client_wait c itimeout polled).connfd true (pos 0) buffer 0 s) _
            (λ r. r.1.connfd ≡ c.connfd) (λ m. client_wait_connfd c itimeout polled))
  ]
]

ClientStep-IsBalanced :
    (c : TcpClient) (ledger : Ledger) (c' : TcpClient) (ledger' : Ledger)
    → ClientStep c ledger c' ledger'
    → IsBalanced c ledger
    → IsBalanced c' ledger'
ClientStep-IsBalanced c ledger c' ledger' (connected v l ip port fd resolved accepted r socket e)
      balanced =
    Whenever-eq (connect_to_server v l ip port fd resolved accepted) r _
      (connect_to_server-IsBalanced v l ip port fd resolved accepted balanced socket) e
ClientStep-IsBalanced c ledger c' ledger' (read_from v l buffer itimeout polled s r e) balanced =
    subst (λ fd. IsSocket fd × (positives l.opened ≡ positives (fd ∷ l.closed)))
      (sym (
        Whenever-eq (client_read v buffer itimeout polled s) r _
          (client_read_connfd v buffer itimeout polled s) e))
      balanced
ClientStep-IsBalanced c ledger c' ledger' (shut_down v l) balanced =
    client_close-IsBalanced v l balanced

-- In every state of a client, all descriptors above zero that it opened are closed, once each, but for
-- the one that it has, if it has one; socket() gives -1 or any descriptor. Descriptor zero is left out,
-- since Close does not close it.
pub ClientReached-IsBalanced :
    (c : TcpClient) (ledger : Ledger) → ClientReached c ledger → IsBalanced c ledger
unfolding make_client
ClientReached-IsBalanced c ledger (constructed buflen) = (inl refl, refl)
ClientReached-IsBalanced c ledger (then_step v w l m h s) =
    ClientStep-IsBalanced v l w m s (ClientReached-IsBalanced v l h)
