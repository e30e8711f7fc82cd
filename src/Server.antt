-- ===== src/Server.antt =====
-- src/server.cpp: the server's loop over events. What the system calls give is an argument. The pool of
-- threads and the connection of the database, which are made and not used, are left out; the clock and
-- the events of every round of `start` come in a list.
pub mod Polling
pub mod Watched
pub mod Listening
pub mod Arrivals
use Prim.Native.Nat.{bit_and, bit_or}
use idc.Prelude.{
  ℕ, zero, suc, ◌+◌, Bool, true, false, not, ◌&&◌, ◌||◌, List, [], ◌∷◌, ◌++◌, Option, none, some,
  Result, ok, fault, ◌>>=◌, bad_access, if◌then◌else◌, leb, ltb, ◌==◌, length, ℤ, pos, negsuc, eq_ℤ,
}
use idc.Address.{IPv4Address}
use idc.Net.Frame.{is_above_zero}
use idc.Net.Client.{Ledger, minus_one}
use idc.Socket.{Socket, create_tcp, bind, listen, accept, close}
use idc.Timer.{TimerManager, get_next_timer}
use idc.Http.Conn.{to_int, is_above}
use idc.Server.Polling.{Epoll, EpollEvent, add_fd, wait, get_event_fd, get_events}

-- `ledger` has the descriptors of its sockets, `user_count` and `is_et` are statics of HttpConn.
pub record TcpServer : Type 0 where
  pub time_ms : ℤ
  pub is_close : Bool
  pub listen_event : ℕ
  pub conn_event : ℕ
  pub epoll : Epoll
  pub sock : Option Socket
  pub timer : TimerManager
  pub clients : List Socket
  pub ledger : Ledger
  pub user_count : ℤ
  pub is_et : Bool

-- EPOLLIN, EPOLLOUT, EPOLLRDHUP | EPOLLHUP | EPOLLERR, EPOLLRDHUP, EPOLLONESHOT and EPOLLET
abbrev pub epollin : ℕ
epollin = 1

abbrev epollout : ℕ
epollout = 4

abbrev hung_up : ℕ
hung_up = 8216

abbrev pub epollrdhup : ℕ
epollrdhup = 8192

abbrev pub epolloneshot : ℕ
epolloneshot = 1073741824

abbrev pub epollet : ℕ
epollet = 2147483648

-- Whether an event is in a mask.
unfoldable pub in_mask : ℕ → ℕ → Bool
in_mask event mask = not (bit_and event mask == 0)

-- initEventMode: the events of the listening socket and those of a connection.
unfoldable pub mode_events : ℤ → ℕ × ℕ
mode_events mode =
    let conn = bit_or epolloneshot epollrdhup in
    if eq_ℤ mode (pos 0)
    then (epollrdhup, conn)
    else if eq_ℤ mode (pos 1)
    then (epollrdhup, bit_or conn epollet)
    else if eq_ℤ mode (pos 2)
    then (bit_or epollrdhup epollet, conn)
    else (bit_or epollrdhup epollet, bit_or conn epollet)

unfoldable pub init_event_mode : TcpServer → ℤ → TcpServer
unfolding mode_events in_mask
init_event_mode s trig_mode =
    let (listen_event, conn_event) = mode_events trig_mode in
    record s {
      listen_event = listen_event;
      conn_event = conn_event;
      is_et = in_mask conn_event epollet;
    }

-- init: `addr` is what LookupAnyIPAddress gives.
unfoldable pub init :
    TcpServer
    → Option IPv4Address
    → ℤ
    → Bool
    → Option IPv4Address
    → Bool
    → Bool
    → Result (Bool × TcpServer)
unfolding create_tcp bind listen add_fd
init s none fd bound name listened added = ok (false, s)
init s (some address) fd bound name listened added = create_tcp (some address) >>= λ made.
    bind made s.ledger (some address) fd bound name >>= λ (success, listener, ledger).
    let s' = record s { sock = some listener; ledger = ledger } in
    if not success || not (listen listener listened)
    then ok (false, s')
    else ok (
      true,
      record s' {
        epoll = (add_fd s'.epoll listener.sock (bit_or s'.listen_event epollin) added).1;
      },
    )

-- The constructor on a server whose members are made: m_isClose is left as it is in memory.
unfoldable pub construct :
    TcpServer
    → ℤ
    → Option IPv4Address
    → ℤ
    → Bool
    → Option IPv4Address
    → Bool
    → Bool
    → Result TcpServer
unfolding init_event_mode init
construct s trig_mode addr fd bound name listened added =
    init (init_event_mode s trig_mode) addr fd bound name listened added >>= λ (success, s').
    ok (if success then s' else record s' { is_close = true })

-- What accept and the calls behind it give.
pub record Arrival : Type 0 where
  pub fd : ℤ
  pub name : Option IPv4Address
  pub peer : Option IPv4Address
  pub added : Bool

-- A round of dealListen, and whether it goes on to the test of the loop.
unfoldable pub take_client : TcpServer → Socket → Arrival → Result (Bool × TcpServer)
unfolding accept close add_fd
take_client s listener a = accept listener s.ledger a.fd a.name a.peer >>= λ (accepted, ledger).
    elim accepted [
      | none ↦ ok (false, record s { ledger = ledger })
      | some client ↦
          if is_above 999 s.user_count
          then ok (false, record s { ledger = (close client ledger).2 })
          else ok (
            true,
            record s {
              ledger = ledger;
              epoll = (add_fd s.epoll client.sock epollin a.added).1;
              clients = s.clients ++ (client ∷ []);
            },
          )
    ]

-- dealListen. The listening socket blocks: without an arrival the call of accept does not return, and
-- the Boolean is false.
unfoldable pub deal_listen :
    List Arrival → TcpServer → Socket → Result (Bool × TcpServer × List Arrival)
unfolding take_client in_mask
deal_listen [] s listener = ok (false, s, [])
deal_listen (a ∷ arrivals) s listener = take_client s listener a >>= λ (goes_on, s').
    elim (goes_on && in_mask s.listen_event epollet) [
      | true ↦ deal_listen arrivals s' listener
      | false ↦ ok (true, s', arrivals)
    ]

-- What the loop of start does for an event: only those of the listening socket are handled.
unfoldable pub serve_event :
    TcpServer → Socket → ℕ → List Arrival → Result (Bool × TcpServer × List Arrival)
unfolding deal_listen get_event_fd get_events
serve_event s listener i arrivals = get_event_fd s.epoll i >>= λ fd. elim (eq_ℤ fd listener.sock) [
  | true ↦ deal_listen arrivals s listener
  | false ↦ get_events s.epoll i >>= λ events. ok (true, s, arrivals)
]

-- The loop over the events from `i` on, `count` of them.
unfoldable pub serve_events :
    ℕ → ℕ → TcpServer → Socket → List Arrival → Result (Bool × TcpServer × List Arrival)
unfolding serve_event
serve_events zero i s listener arrivals = ok (true, s, arrivals)
serve_events (suc count) i s listener arrivals =
    serve_event s listener i arrivals >>= λ (returned, s', later). elim returned [
      | false ↦ ok (false, s', later)
      | true ↦ serve_events count (suc i) s' listener later
    ]

-- The timeout of a round, an int.
unfoldable pub next_timeout : TcpServer → ℕ → TcpServer × ℤ
unfolding get_next_timer to_int
next_timeout s now =
    if is_above_zero s.time_ms
    then (let (timer, timeout) = get_next_timer s.timer now in
        (record s { timer = timer }, to_int timeout))
    else (s, minus_one)

abbrev pub count_of : ℤ → ℕ
count_of (pos n) = n
count_of (negsuc n) = 0

-- A round of start: the clock, and the events that are ready.
unfoldable pub serve_round :
    TcpServer
    → Socket
    → ℕ
    → Option (List EpollEvent)
    → List Arrival
    → Result (Bool × TcpServer × List Arrival)
unfolding next_timeout wait serve_events
serve_round s listener now ready arrivals =
    let (s', timeout) = next_timeout s now in
    let (event_cnt, epoll) = wait s'.epoll ready in
    serve_events (count_of event_cnt) 0 (record s' { epoll = epoll }) listener arrivals

-- The loop of start. Nothing in it sets m_isClose; the Boolean is false when the server stands in a call
-- of accept.
unfoldable pub start_loop :
    List (ℕ × Option (List EpollEvent))
    → TcpServer
    → Socket
    → List Arrival
    → Result (Bool × TcpServer × List Arrival)
unfolding serve_round
start_loop [] s listener arrivals = ok (true, s, arrivals)
start_loop ((now, ready) ∷ rounds) s listener arrivals =
    serve_round s listener now ready arrivals >>= λ (returned, s', later). elim returned [
      | false ↦ ok (false, s', later)
      | true ↦ start_loop rounds s' listener later
    ]

unfoldable pub start :
    List (ℕ × Option (List EpollEvent))
    → TcpServer
    → List Arrival
    → Result (Bool × TcpServer × List Arrival)
unfolding start_loop
start rounds s arrivals = if s.is_close then ok (true, s, arrivals) else elim rounds [
  | [] ↦ ok (true, s, arrivals)
  | r ∷ later ↦ elim s.sock [
    | none ↦ fault bad_access
    | some listener ↦ start_loop (r ∷ later) s listener arrivals
  ]
]
