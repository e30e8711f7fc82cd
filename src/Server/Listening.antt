-- ===== src/Server/Listening.antt =====
-- The constructor of TcpServer in src/server.cpp: what it makes of the listening socket.
use idc.Prelude.{◌∷◌, if◌then◌else◌, true, false, ℕ, ◌≡◌, ◌⊎◌, Bool, [], some}
use idc.Net.Client.{is_negative}
use idc.Socket.{Socket}
use idc.Server.Polling.{add}
use idc.Server.{TcpServer}
use idc.Server.Watched.{IsWatched}

-- A server is closed, or it has a socket for IPv4 that listens, for which it called epoll_ctl with
-- `events`; if that call succeeded, as `added` says, the socket is watched, and otherwise nothing is.
abbrev pub IsListening : ℕ → Bool → ℕ → TcpServer → Type 0
IsListening events added size s =
    (s.is_close ≡ true)
    ⊎ ((listener : Socket) × (s.sock ≡ some listener)
        × (listener.family ≡ 2)
        × (s.clients ≡ [])
        × IsWatched true
            (if added
              then record { operation = add; target = listener.sock; mask = events } ∷ []
              else [])
            size s)

abbrev IsBound : Bool → Socket → Type 0
IsBound success listener =
    (success ≡ false)
    ⊎ ((success ≡ true) × (listener.family ≡ 2) × (is_negative listener.sock ≡ false))

-- What the constructor makes of the result of init.
abbrev close_on : Bool × TcpServer → TcpServer
close_on (success, s) = if success then s else record s { is_close = true }
