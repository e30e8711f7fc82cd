-- ===== src/Server/Arrivals.antt =====
-- dealListen of src/server.cpp: which clients it takes.
use idc.Prelude.{
  ap₂, if◌then◌else◌, Bool-cases, inl, inr, ℕ, ◌≡◌, refl, ap, sym, ◌∙◌, Bool, true, false, List, [],
  ◌∷◌, ◌++◌, map, append_assoc, append-nil, ok, ℤ, pos,
}
use idc.Net.Client.{minus_one, is_negative}
use idc.Socket.{Socket}
use idc.Http.Conn.{is_above}
use idc.Server.Polling.{Control, add_fd}
use idc.Server.{TcpServer, Arrival, epollet, in_mask, take_client, deal_listen}
use idc.Server.Watched.{watch, client_of, accept_lem}

-- Arrivals with a descriptor.
abbrev pub AreClients : List Arrival → Type 0
AreClients [] = Unit {0}
AreClients (a ∷ arrivals) = ((n : ℕ) × (a.fd ≡ pos n)) × AreClients arrivals

-- The descriptors of the arrivals, the last one first, in front of others.
abbrev pub descriptors : List Arrival → List ℤ → List ℤ
descriptors [] fds = fds
descriptors (a ∷ arrivals) fds = descriptors arrivals (a.fd ∷ fds)

-- The calls of epoll_ctl that succeed for the arrivals.
abbrev pub controls_of : Socket → List Arrival → List Control
controls_of listener [] = []
controls_of listener (a ∷ arrivals) =
    if a.added
    then watch (client_of listener a) ∷ controls_of listener arrivals
    else controls_of listener arrivals

-- The server with the arrivals as its clients, which epoll watches where epoll_ctl succeeds.
abbrev pub enlist : List Arrival → TcpServer → Socket → TcpServer
enlist arrivals s listener = record s {
  clients = s.clients ++ map (client_of listener) arrivals;
  epoll = record s.epoll { controls = s.epoll.controls ++ controls_of listener arrivals };
  ledger = record s.ledger { opened = descriptors arrivals s.ledger.opened };
}

take_client_lem :
    (s : TcpServer) (listener : Socket) (a : Arrival)
    → listener.family ≡ 2
    → is_above 999 s.user_count ≡ false
    → (n : ℕ) × (a.fd ≡ pos n)
    → take_client s listener a ≡ ok (true, enlist (a ∷ []) s listener)
unfolding take_client add_fd
take_client_lem s listener a inet room (n, e) =
    let positive : is_negative a.fd ≡ false = rw e refl in
    rw (take_client, accept_lem listener s.ledger a inet (rw e refl))
      (rw (room, positive)
        (elim (Bool-cases a.added) [
          | inl on ↦ rw on refl
          | inr off ↦ rw (off, append-nil s.epoll.controls) refl
        ]))

controls_of-cons :
    (listener : Socket) (a : Arrival) (arrivals : List Arrival) (controls : List Control)
    → (controls ++ controls_of listener (a ∷ [])) ++ controls_of listener arrivals
      ≡ controls ++ controls_of listener (a ∷ arrivals)
controls_of-cons listener a arrivals controls = elim (Bool-cases a.added) [
  | inl on ↦
      rw on
        (append_assoc controls (watch (client_of listener a) ∷ []) (controls_of listener arrivals))
  | inr off ↦ rw (off, append-nil controls) refl
]

enlist-cons :
    (a : Arrival) (arrivals : List Arrival) (s : TcpServer) (listener : Socket)
    → enlist arrivals (enlist (a ∷ []) s listener) listener ≡ enlist (a ∷ arrivals) s listener
enlist-cons a arrivals s listener =
    ap₂
      (λ clients controls. record s {
        clients = clients;
        epoll = record s.epoll { controls = controls };
        ledger = record s.ledger { opened = descriptors (a ∷ arrivals) s.ledger.opened };
      })
      (append_assoc s.clients (client_of listener a ∷ []) (map (client_of listener) arrivals))
      (controls_of-cons listener a arrivals s.epoll.controls)

enlist-nil : (s : TcpServer) (listener : Socket) → enlist [] s listener ≡ s
enlist-nil s listener = rw (append-nil s.clients, append-nil s.epoll.controls) refl

-- Edge-triggered: the loop goes through the clients.
deal_listen-append :
    (arrivals later : List Arrival) (s : TcpServer) (listener : Socket)
    → listener.family ≡ 2
    → is_above 999 s.user_count ≡ false
    → in_mask s.listen_event epollet ≡ true
    → AreClients arrivals
    → deal_listen (arrivals ++ later) s listener
      ≡ deal_listen later (enlist arrivals s listener) listener
unfolding deal_listen
deal_listen-append [] later s listener inet room edge clients =
    ap (λ s'. deal_listen later s' listener) (sym (enlist-nil s listener))
deal_listen-append (a ∷ arrivals) later s listener inet room edge (one, clients) =
    rw (deal_listen, take_client_lem s listener a inet room one, edge)
      (deal_listen-append arrivals later (enlist (a ∷ []) s listener) listener inet room edge
          clients
        ∙ ap (λ s'. deal_listen later s' listener) (enlist-cons a arrivals s listener))

-- What dealListen does for clients that wait: with edges it takes all of them, and returns when accept
-- fails, but stays in accept when nothing else arrives; with levels it takes one.
abbrev pub Dealt :
    Bool → Arrival → List Arrival → Arrival → List Arrival → TcpServer → Socket → Type 0
Dealt true a arrivals failure later s listener =
    (deal_listen (a ∷ (arrivals ++ (failure ∷ later))) s listener
      ≡ ok (true, enlist (a ∷ arrivals) s listener, later))
    × (deal_listen (a ∷ arrivals) s listener ≡ ok (false, enlist (a ∷ arrivals) s listener, []))
Dealt false a arrivals failure later s listener =
    deal_listen (a ∷ arrivals) s listener ≡ ok (true, enlist (a ∷ []) s listener, arrivals)

-- While HttpConn counts fewer than 1000 users, and for a listening socket for IPv4 and clients with
-- descriptors, dealListen takes every client that waits if the listening socket is watched for edges,
-- each as the next member of the clients, and watched for input if epoll_ctl succeeds; it returns then
-- only when a call of accept fails, and stays in accept if nothing else arrives. If the socket is watched
-- for levels, it takes the first client and returns.
pub deal_listen-Dealt :
    (edge : Bool) (a : Arrival) (arrivals : List Arrival) (failure : Arrival) (later : List Arrival)
    (s : TcpServer) (listener : Socket)
    → listener.family ≡ 2
    → is_above 999 s.user_count ≡ false
    → in_mask s.listen_event epollet ≡ edge
    → AreClients (a ∷ arrivals)
    → failure.fd ≡ minus_one
    → Dealt edge a arrivals failure later s listener
unfolding deal_listen take_client
deal_listen-Dealt false a arrivals failure later s listener inet room level (one, clients) fails =
    rw (deal_listen, take_client_lem s listener a inet room one, level) refl
deal_listen-Dealt true a arrivals failure later s listener inet room edge clients fails = (
  deal_listen-append (a ∷ arrivals) (failure ∷ later) s listener inet room edge clients
      ∙ rw (deal_listen, take_client, fails) refl,
  ap (λ queue. deal_listen queue s listener) (sym (append-nil (a ∷ arrivals)))
      ∙ deal_listen-append (a ∷ arrivals) [] s listener inet room edge clients,
)
