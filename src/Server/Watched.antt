-- ===== src/Server/Watched.antt =====
-- The server of src/server.cpp: which sockets epoll is told to watch.
use idc.Prelude.{
  ℕ, zero, suc, ◌+◌, ◌≤◌, ◌<◌, ◌≡◌, refl, sym, ap, ◌⊎◌, inl, inr, Bool, true, false, ◌&&◌,
  Bool-cases, List, [], ◌∷◌, ◌++◌, map, drop, Option, none, some, ok, Returns, Returns-bind, arith,
  length, length-append, length-drop, pos, eq_ℤ, not, append_assoc, ◌∙◌, if◌then◌else◌,
}
use idc.Net.Frame.{is_minus_one, is_above_zero}
use idc.Net.Client.{Ledger, minus_one, is_negative}
use idc.Socket.{Socket, make_socket, get_local_address, get_remote_address, accept, opened_one}
use idc.Socket as Socket
use idc.Server.Polling.{EpollEvent, Control, add, add_fd, wait, event_at, get_event_fd, get_events}
use idc.Server.{
  TcpServer, Arrival, epollin, epollet, in_mask, take_client, deal_listen, serve_event,
  serve_events, next_timeout, serve_round, start_loop, start,
}
use idc.Http.Conn.{is_above}

-- The call that has the socket of a client watched.
abbrev pub watch : Socket → Control
watch client = record { operation = add; target = client.sock; mask = epollin }

-- Some of the clients, in their order.
pub data Some : List Socket → List Socket → Type 0 where
  nobody : Some [] []
  left_out :
      (watched clients : List Socket) (client : Socket)
      → Some watched clients
      → Some watched (clients ++ (client ∷ []))
  taken_in :
      (watched clients : List Socket) (client : Socket)
      → Some watched clients
      → Some (watched ++ (client ∷ [])) (clients ++ (client ∷ []))

-- All clients, or some of them.
abbrev pub Which : Bool → List Socket → List Socket → Type 0
Which true watched clients = watched ≡ clients
Which false watched clients = Some watched clients

-- Behind the calls `first`, the calls of epoll_ctl that succeeded are one for each client that is
-- watched, in their order: all clients if `all` is true; there are `size` events.
abbrev pub IsWatched : Bool → List Control → ℕ → TcpServer → Type 0
IsWatched all first size s =
    ((watched : List Socket) × (s.epoll.controls ≡ first ++ map watch watched)
      × Which all watched s.clients)
    × (length s.epoll.events ≡ size)

-- What accept gives: -1 or a descriptor; if `all` is true, epoll_ctl succeeds for it.
abbrev pub IsArrival : Bool → Arrival → Type 0
IsArrival all a = ((a.fd ≡ minus_one) ⊎ ((n : ℕ) × (a.fd ≡ pos n))) × ((all && not a.added) ≡ false)

abbrev pub AreArrivals : Bool → List Arrival → Type 0
AreArrivals all [] = Unit {0}
AreArrivals all (a ∷ arrivals) = IsArrival all a × AreArrivals all arrivals

-- epoll_wait fails or writes at most `size` events.
abbrev pub FitsOne : ℕ → Option (List EpollEvent) → Type 0
FitsOne size none = Unit {0}
FitsOne size (some ready) = length ready ≤ size

abbrev pub Fits : ℕ → List (ℕ × Option (List EpollEvent)) → Type 0
Fits size [] = Unit {0}
Fits size ((now, ready) ∷ rounds) = FitsOne size ready × Fits size rounds

-- The client that an arrival makes.
abbrev pub client_of : Socket → Arrival → Socket
client_of listener a = record {
  sock = a.fd;
  family = listener.family;
  type = listener.type;
  protocol = listener.protocol;
  is_connected = true;
  local_address = a.name;
  remote_address = a.peer;
}

pub accept_lem :
    (listener : Socket) (ledger : Ledger) (a : Arrival)
    → listener.family ≡ 2
    → is_minus_one a.fd ≡ false
    → accept listener ledger a.fd a.name a.peer
      ≡ ok (some (client_of listener a), opened_one ledger a.fd)
unfolding accept Socket.init make_socket get_local_address get_remote_address
accept_lem listener ledger a inet valid = rw (valid, inet) refl

map-append :
    (clients : List Socket) (client : Socket)
    → map watch (clients ++ (client ∷ [])) ≡ map watch clients ++ (watch client ∷ [])
map-append [] client = refl
map-append (c ∷ clients) client = ap (◌∷◌ (watch c)) (map-append clients client)

Which-client :
    (all : Bool) (watched clients : List Socket) (client : Socket)
    → Which all watched clients
    → Which all (watched ++ (client ∷ [])) (clients ++ (client ∷ []))
Which-client true watched clients client same = ap (λ cs. cs ++ (client ∷ [])) same
Which-client false watched clients client part = taken_in watched clients client part

-- The call for the next client
IsWatched-client :
    (all : Bool) (first controls : List Control) (clients : List Socket) (client : Socket)
    (added : Bool)
    → (all && not added) ≡ false
    → (watched : List Socket) × (controls ≡ first ++ map watch watched) × Which all watched clients
    → (watched : List Socket) × ((if added then controls ++ (watch client ∷ []) else controls)
        ≡ first ++ map watch watched)
      × Which all watched (clients ++ (client ∷ []))
IsWatched-client true first controls clients client false done known = absurd (cc done)
IsWatched-client false first controls clients client false done (watched, calls, part) =
    (watched, calls, left_out watched clients client part)
IsWatched-client all first controls clients client true done (watched, calls, which) = (
  watched ++ (client ∷ []),
  ap (λ cs. cs ++ (watch client ∷ [])) calls
      ∙ append_assoc first (map watch watched) (watch client ∷ [])
      ∙ ap (λ cs. first ++ cs) (sym (map-append watched client)),
  Which-client all watched clients client which,
)

take_client-IsWatched :
    (all : Bool) (first : List Control) (size : ℕ) (s : TcpServer) (listener : Socket) (a : Arrival)
    → listener.family ≡ 2
    → IsArrival all a
    → IsWatched all first size s
    → Returns (take_client s listener a) (λ r. IsWatched all first size r.1)
unfolding take_client add_fd
take_client-IsWatched all first size s listener a inet (inl e, done) watched =
    rw (e, take_client) watched
take_client-IsWatched all first size s listener a inet (inr (n, e), done) watched =
    rw (take_client, accept_lem listener s.ledger a inet (rw e refl))
      (elim (Bool-cases (is_above 999 s.user_count)) [
        | inl full ↦ rw full watched
        | inr room ↦
            let positive : is_negative a.fd ≡ false = rw e refl in
            rw (room, positive)
              (
                IsWatched-client all first s.epoll.controls s.clients (client_of listener a) a.added
                    done watched.0,
                watched.1,
              )
      ])

deal_listen-IsWatched :
    (all : Bool) (first : List Control) (size : ℕ) (arrivals : List Arrival) (s : TcpServer)
    (listener : Socket)
    → listener.family ≡ 2
    → AreArrivals all arrivals
    → IsWatched all first size s
    → Returns
        (deal_listen arrivals s listener)
        (λ r. IsWatched all first size r.1 × AreArrivals all r.2)
unfolding deal_listen
deal_listen-IsWatched all first size [] s listener inet given watched = (watched, tt)
deal_listen-IsWatched all first size (a ∷ arrivals) s listener inet (one, given) watched =
    Returns-bind (take_client s listener a) _ (λ r. IsWatched all first size r.1)
      (λ r. IsWatched all first size r.1 × AreArrivals all r.2)
      (take_client-IsWatched all first size s listener a inet one watched)
      (λ (goes_on, s') watched'. elim (Bool-cases (goes_on && in_mask s.listen_event epollet)) [
        | inl again ↦
            rw again (deal_listen-IsWatched all first size arrivals s' listener inet given watched')
        | inr ends ↦ rw ends (watched', given)
      ])

event_at_returns :
    (events : List EpollEvent) (i : ℕ)
    → i < length events
    → Returns (event_at events i) (λ v. Unit {0})
unfolding event_at
event_at_returns [] i h = absurd (omega (arith, h))
event_at_returns (v ∷ events) zero h = tt
event_at_returns (v ∷ events) (suc i) h = event_at_returns events i (omega (arith, h))

serve_event-IsWatched :
    (all : Bool) (first : List Control) (size : ℕ) (s : TcpServer) (listener : Socket) (i : ℕ)
    (arrivals : List Arrival)
    → listener.family ≡ 2
    → i < size
    → AreArrivals all arrivals
    → IsWatched all first size s
    → Returns
        (serve_event s listener i arrivals)
        (λ r. IsWatched all first size r.1 × AreArrivals all r.2)
unfolding serve_event get_event_fd get_events
serve_event-IsWatched all first size s listener i arrivals inet below given watched =
    let there = event_at_returns s.epoll.events i (omega (arith, watched.1)) in
    Returns-bind (get_event_fd s.epoll i) _ (λ fd. Unit {0})
      (λ r. IsWatched all first size r.1 × AreArrivals all r.2)
      (Returns-bind (event_at s.epoll.events i) _ (λ v. Unit {0}) (λ fd. Unit {0}) there
        (λ v h. tt))
      (λ fd h. elim (Bool-cases (eq_ℤ fd listener.sock)) [
        | inl ours ↦
            rw ours (deal_listen-IsWatched all first size arrivals s listener inet given watched)
        | inr other ↦ rw other (
            Returns-bind (get_events s.epoll i) _ (λ mask. Unit {0})
              (λ r. IsWatched all first size r.1 × AreArrivals all r.2)
              (Returns-bind (event_at s.epoll.events i) _ (λ v. Unit {0}) (λ mask. Unit {0}) there
                (λ v h. tt))
              (λ mask h. (watched, given)))
      ])

serve_events-IsWatched :
    (all : Bool) (first : List Control) (size count i : ℕ) (s : TcpServer) (listener : Socket)
    (arrivals : List Arrival)
    → listener.family ≡ 2
    → i + count ≤ size
    → AreArrivals all arrivals
    → IsWatched all first size s
    → Returns
        (serve_events count i s listener arrivals)
        (λ r. IsWatched all first size r.1 × AreArrivals all r.2)
unfolding serve_events
serve_events-IsWatched all first size zero i s listener arrivals inet below given watched =
    (watched, given)
serve_events-IsWatched all first size (suc count) i s listener arrivals inet below given watched =
    Returns-bind (serve_event s listener i arrivals) _
      (λ r. IsWatched all first size r.1 × AreArrivals all r.2)
      (λ r. IsWatched all first size r.1 × AreArrivals all r.2)
      (serve_event-IsWatched all first size s listener i arrivals inet (omega arith) given watched)
      (λ (returned, s', later) (watched', given'). elim (Bool-cases returned) [
        | inl on ↦ rw on (
            serve_events-IsWatched all first size count (suc i) s' listener later inet (omega arith)
              given' watched')
        | inr off ↦ rw off (watched', given')
      ])

next_timeout-IsWatched :
    (all : Bool) (first : List Control) (size : ℕ) (s : TcpServer) (now : ℕ)
    → IsWatched all first size s
    → IsWatched all first size (next_timeout s now).0
unfolding next_timeout
next_timeout-IsWatched all first size s now watched = elim (Bool-cases (is_above_zero s.time_ms)) [
  | inl waits ↦ rw (waits, next_timeout) watched
  | inr off ↦ rw (off, next_timeout) watched
]

serve_round-IsWatched :
    (all : Bool) (first : List Control) (size : ℕ) (s : TcpServer) (listener : Socket) (now : ℕ)
    (ready : Option (List EpollEvent)) (arrivals : List Arrival)
    → listener.family ≡ 2
    → FitsOne size ready
    → AreArrivals all arrivals
    → IsWatched all first size s
    → Returns
        (serve_round s listener now ready arrivals)
        (λ r. IsWatched all first size r.1 × AreArrivals all r.2)
unfolding serve_round wait serve_events
serve_round-IsWatched all first size s listener now none arrivals inet fits given watched =
    (next_timeout-IsWatched all first size s now watched, given)
serve_round-IsWatched all first size s listener now (some ready) arrivals inet fits given watched =
    let (s', timeout) = next_timeout s now in
    let kept = next_timeout-IsWatched all first size s now watched in
    let events = ready ++ drop (length ready) s'.epoll.events in
    let long : length events ≡ size = omega (
      arith,
      kept.1,
      fits,
      length-append ready (drop (length ready) s'.epoll.events),
      length-drop (length ready) s'.epoll.events,
    ) in
    serve_events-IsWatched all first size (length ready) 0
      (record s' { epoll = record s'.epoll { events = events } }) listener arrivals inet
      (omega (arith, fits)) given (kept.0, long)

start_loop-IsWatched :
    (all : Bool) (first : List Control) (size : ℕ) (rounds : List (ℕ × Option (List EpollEvent)))
    (s : TcpServer) (listener : Socket) (arrivals : List Arrival)
    → listener.family ≡ 2
    → Fits size rounds
    → AreArrivals all arrivals
    → IsWatched all first size s
    → Returns (start_loop rounds s listener arrivals) (λ r. IsWatched all first size r.1)
unfolding start_loop
start_loop-IsWatched all first size [] s listener arrivals inet fits given watched = watched
start_loop-IsWatched all first size ((now, ready) ∷ rounds) s listener arrivals inet (fit, fits)
      given watched =
    Returns-bind {B = Bool × TcpServer × List Arrival} (serve_round s listener now ready arrivals) _
      (λ r. IsWatched all first size r.1 × AreArrivals all r.2) (λ r. IsWatched all first size r.1)
      (serve_round-IsWatched all first size s listener now ready arrivals inet fit given watched)
      (λ (returned, s', later) (watched', given'). elim (Bool-cases returned) [
        | inl on ↦
            rw on (
              start_loop-IsWatched all first size rounds s' listener later inet fits given'
                watched')
        | inr off ↦ rw off watched'
      ])

-- A server that has an IPv4 listening socket runs through any rounds of events, in any order and with
-- any timers, without a fault: every assertion about an event holds if epoll_wait writes at most as many
-- as there are, and accept gives -1 or a descriptor. Behind those that succeeded before, the calls of
-- epoll_ctl that succeeded are additions of clients for input, once each and in the order in which they
-- came. If epoll_ctl succeeds for all that arrive, these are all clients; if it may fail, some of them,
-- and the others stay clients of the server that are not watched.
pub start-IsWatched :
    (all : Bool) (first : List Control) (size : ℕ) (rounds : List (ℕ × Option (List EpollEvent)))
    (s : TcpServer) (listener : Socket) (arrivals : List Arrival)
    → s.sock ≡ some listener
    → listener.family ≡ 2
    → Fits size rounds
    → AreArrivals all arrivals
    → IsWatched all first size s
    → Returns (start rounds s arrivals) (λ r. IsWatched all first size r.1)
unfolding start
start-IsWatched all first size [] s listener arrivals has inet fits given watched =
    elim (Bool-cases s.is_close) [
      | inl closed ↦ rw (closed, start) watched
      | inr runs ↦ rw (runs, start) watched
    ]
start-IsWatched all first size (r ∷ rounds) s listener arrivals has inet fits given watched =
    elim (Bool-cases s.is_close) [
      | inl closed ↦ rw (closed, start) watched
      | inr runs ↦
          rw (runs, has, start)
            (start_loop-IsWatched all first size (r ∷ rounds) s listener arrivals inet fits given
              watched)
    ]
