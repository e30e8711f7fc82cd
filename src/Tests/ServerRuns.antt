-- ===== src/Tests/ServerRuns.antt =====
-- Runs of src/socket.cpp and src/server.cpp on small inputs.
use idc.Prelude.{ℕ, refl, Bool, true, false, List, [], ◌∷◌, none, some, Returns, inr, ℤ, pos, arith}
use idc.Address.{IPv4Address}
use idc.Net.Client.{Ledger, minus_one}
use idc.Socket.{Socket, create_tcp_socket, connect, make_socket}
use idc.Socket.Descriptors.{IsKept}
use idc.Socket.Reached.{no_ledger, for_tcp, then_step, connected, SocketReached-IsKept}
use idc.Server.Polling.{EpollEvent, Control, add}
use idc.Server.{TcpServer, Arrival, start, in_mask}
use idc.Server.Watched.{IsWatched, start-IsWatched}
use idc.Server.Arrivals.{Dealt, deal_listen-Dealt}

abbrev peer_address : IPv4Address
peer_address = record { sin_family = 2; sin_port = 0 ∷ 80 ∷ []; sin_addr = 10 ∷ 0 ∷ 0 ∷ 1 ∷ [] }

-- A socket whose connect fails, which closes its descriptor.
abbrev refused : Bool × Socket × Ledger
refused = (
  false,
  record (make_socket 2 1 (pos 0)) { remote_address = some peer_address },
  record { opened = pos 7 ∷ []; closed = pos 7 ∷ [] },
)

SocketReached-IsKept_example : IsKept false refused.1 refused.2
unfolding connect create_tcp_socket make_socket
SocketReached-IsKept_example = SocketReached-IsKept false refused.1 refused.2 (
    then_step false (create_tcp_socket 2) refused.1 no_ledger refused.2 (for_tcp 2) (
      connected (create_tcp_socket 2) no_ledger (some peer_address) true (pos 7) false none none
        refused refl))

abbrev listener : Socket
listener = record (make_socket 2 1 (pos 0)) { sock = pos 3; local_address = some peer_address }

abbrev listening : Control
listening = record { operation = add; target = pos 3; mask = 8193 }

abbrev no_event : EpollEvent
no_event = record { events = 0; fd = pos 0 }

abbrev server : ℕ → TcpServer
server listen_event = record {
  time_ms = pos 0;
  is_close = false;
  listen_event = listen_event;
  conn_event = 8192;
  epoll = record { epollfd = pos 4; events = no_event ∷ no_event ∷ []; controls = listening ∷ [] };
  sock = some listener;
  timer = record {
    heap = λ p. record { recurring = false; ms = 0; next = 0; cb = none };
    timers = [];
    tickled = false;
    previous_time = 0;
  };
  clients = [];
  ledger = record { opened = pos 3 ∷ []; closed = [] };
  user_count = pos 0;
  is_et = false;
}

abbrev arrival : ℤ → Arrival
arrival fd = record { fd = fd; name = some peer_address; peer = none; added = true }

abbrev ready : List EpollEvent
ready = record { events = 1; fd = pos 3 } ∷ record { events = 8192; fd = pos 9 } ∷ []

start-IsWatched_example :
    Returns
      (start
        ((5, some ready) ∷ (6, none) ∷ [])
        (server 8192)
        (arrival (pos 8) ∷ arrival (pos 9) ∷ []))
      (λ r. IsWatched true (listening ∷ []) 2 r.1)
unfolding make_socket
start-IsWatched_example =
    start-IsWatched true (listening ∷ []) 2 ((5, some ready) ∷ (6, none) ∷ []) (server 8192)
      listener (arrival (pos 8) ∷ arrival (pos 9) ∷ []) refl refl (omega arith, (tt, tt))
      ((inr (8, refl), refl), ((inr (9, refl), refl), tt)) (([], refl, refl), refl)

deal_listen-Dealt_example :
    Dealt true
      (arrival (pos 8))
      (arrival (pos 9) ∷ [])
      (arrival minus_one)
      []
      (server 2147491840)
      listener
unfolding make_socket in_mask
deal_listen-Dealt_example =
    deal_listen-Dealt true (arrival (pos 8)) (arrival (pos 9) ∷ []) (arrival minus_one) []
      (server 2147491840) listener refl refl refl ((8, refl), ((9, refl), tt)) refl

abbrev fresh : TcpServer
fresh = record (server 0) {
  epoll = record { epollfd = pos 4; events = no_event ∷ no_event ∷ []; controls = [] };
  sock = none;
  ledger = no_ledger;
}
