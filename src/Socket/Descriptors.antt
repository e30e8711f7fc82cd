-- ===== src/Socket/Descriptors.antt =====
-- Socket of src/socket.cpp: which descriptors are open, and which state a socket is in.
use idc.Prelude.{
  zero, suc, ◌≡◌, refl, ap, ◌⊎◌, inl, inr, Bool, true, false, not, ◌&&◌, ◌||◌, Bool-cases, ◌∷◌,
  Option, none, some, Option-cases, Whenever, Whenever-then, ℤ, pos, negsuc, ◌==◌, arith,
}
use idc.Address.{IPv4Address}
use idc.Net.Frame.{is_minus_one}
use idc.Net.Client.{Ledger, minus_one}
use idc.Socket.{
  Socket, is_valid, new_sock, get_local_address, get_remote_address, init, ensure_sock, bind, close,
  try_connect, connect, reconnect, opened_one,
}

-- All descriptors that were opened are closed, once each and in that order, but for the one that the
-- socket has; without one, it is connected only if `datagram`.
abbrev pub IsKept : Bool → Socket → Ledger → Type 0
IsKept datagram s ledger =
    ((s.sock ≡ minus_one)
      × ((s.is_connected && not datagram) ≡ false)
      × (ledger.opened ≡ ledger.closed))
    ⊎ ((is_minus_one s.sock ≡ false) × (ledger.opened ≡ s.sock ∷ ledger.closed))

minus_one_cases : (fd : ℤ) → (fd ≡ minus_one) ⊎ (is_minus_one fd ≡ false)
minus_one_cases (pos n) = inr refl
minus_one_cases (negsuc zero) = inl refl
minus_one_cases (negsuc (suc n)) = inr (ground arith)

pub new_sock-IsKept :
    (d : Bool) (s : Socket) (ledger : Ledger) (fd : ℤ)
    → ((s.is_connected && not d) ≡ false)
    → ledger.opened ≡ ledger.closed
    → let (s', ledger') = new_sock s ledger fd in IsKept d s' ledger'
unfolding new_sock
new_sock-IsKept d s ledger fd idle same = elim (minus_one_cases fd) [
  | inl e ↦ rw (e, new_sock) (inl (refl, idle, same))
  | inr e ↦ rw (e, new_sock) (inr (refl, ap (λ fds. fd ∷ fds) same))
]

ensure_sock-IsKept :
    (d : Bool) (s : Socket) (ledger : Ledger) (fd : ℤ)
    → IsKept d s ledger
    → let (s', ledger') = ensure_sock s ledger fd in IsKept d s' ledger'
unfolding ensure_sock is_valid
ensure_sock-IsKept d s ledger fd (inl (e, idle, same)) =
    rw (e, ensure_sock) (new_sock-IsKept d s ledger fd idle same)
ensure_sock-IsKept d s ledger fd (inr (e, one)) = rw (e, ensure_sock) (inr (e, one))

pub close-IsKept :
    (d : Bool) (s : Socket) (ledger : Ledger)
    → IsKept d s ledger
    → let (r, s', ledger') = close s ledger in IsKept d s' ledger'
unfolding close is_valid
close-IsKept d s ledger (inl (e, idle, same)) = elim (Bool-cases s.is_connected) [
  | inl on ↦ rw (e, on, close) (inl (refl, refl, same))
  | inr off ↦ rw (e, off, close) (inl (refl, refl, same))
]
close-IsKept d s ledger (inr (e, one)) = elim (Bool-cases s.is_connected) [
  | inl on ↦ rw (e, on, close) (inl (refl, refl, one))
  | inr off ↦ rw (e, off, close) (inl (refl, refl, one))
]

pub get_local_address-IsKept :
    (d : Bool) (s : Socket) (ledger : Ledger) (name : Option IPv4Address)
    → IsKept d s ledger
    → Whenever (get_local_address s name) (λ r. IsKept d r.1 ledger)
unfolding get_local_address
get_local_address-IsKept d s ledger name h = elim (Option-cases s.local_address) [
  | inl e ↦ elim (Bool-cases (s.family == 2)) [
    | inl inet ↦ rw (e, inet, get_local_address) h
    | inr other ↦ rw (e, other, get_local_address) tt
  ]
  | inr (a, e) ↦ rw (e, get_local_address) h
]

pub get_remote_address-IsKept :
    (d : Bool) (s : Socket) (ledger : Ledger) (peer : Option IPv4Address)
    → IsKept d s ledger
    → Whenever (get_remote_address s peer) (λ r. IsKept d r.1 ledger)
unfolding get_remote_address
get_remote_address-IsKept d s ledger peer h = elim (Option-cases s.remote_address) [
  | inl e ↦ elim (Bool-cases (s.family == 2)) [
    | inl inet ↦ rw (e, inet, get_remote_address) h
    | inr other ↦ rw (e, other, get_remote_address) tt
  ]
  | inr (a, e) ↦ rw (e, get_remote_address) h
]

pub init-IsKept :
    (d : Bool) (s : Socket) (fd : ℤ) (name peer : Option IPv4Address) (ledger : Ledger)
    → is_minus_one fd ≡ false
    → ledger.opened ≡ ledger.closed
    → Whenever (init s fd name peer) (λ s'. IsKept d s' (opened_one ledger fd))
unfolding init
init-IsKept d s fd name peer ledger h same =
    let ledger' = opened_one ledger fd in
    Whenever-then (get_local_address (record s { sock = fd; is_connected = true }) name) _
      (λ r. IsKept d r.1 ledger') (λ s'. IsKept d s' ledger')
      (get_local_address-IsKept d (record s { sock = fd; is_connected = true }) ledger' name
        (inr (h, ap (λ fds. fd ∷ fds) same)))
      (λ named kept.
        Whenever-then (get_remote_address named.1 peer) _ (λ r. IsKept d r.1 ledger')
          (λ s'. IsKept d s' ledger') (get_remote_address-IsKept d named.1 ledger' peer kept)
          (λ met kept'. kept'))

pub bind-IsKept :
    (d : Bool) (s : Socket) (ledger : Ledger) (addr : Option IPv4Address) (fd : ℤ) (bound : Bool)
    (name : Option IPv4Address)
    → IsKept d s ledger
    → Whenever (bind s ledger addr fd bound name) (λ r. IsKept d r.1 r.2)
unfolding bind
bind-IsKept d s ledger addr fd bound name h =
    let (s', ledger') = ensure_sock s ledger fd in
    let kept = ensure_sock-IsKept d s ledger fd h in
    elim (Bool-cases (is_valid s')) [
      | inr closed ↦ rw (closed, bind) kept
      | inl valid ↦ elim (Option-cases addr) [
        | inl e ↦ rw (valid, e, bind) tt
        | inr (address, e) ↦
            elim (Bool-cases (not (address.sin_family == s'.family) || not bound)) [
              | inl bad ↦ rw (valid, e, bad, bind) kept
              | inr good ↦
                  rw (valid, e, good, bind)
                    (Whenever-then (get_local_address s' name) _ (λ r. IsKept d r.1 ledger')
                      (λ r. IsKept d r.1 r.2) (get_local_address-IsKept d s' ledger' name kept)
                      (λ named kept'. kept'))
            ]
      ]
    ]

try_connect-IsKept :
    (d : Bool) (s : Socket) (ledger : Ledger) (waits accepted : Bool)
    (peer name : Option IPv4Address)
    → IsKept d s ledger
    → is_valid s ≡ true
    → Whenever (try_connect s ledger waits accepted peer name) (λ r. IsKept d r.1 r.2)
unfolding try_connect is_valid
try_connect-IsKept d s ledger false accepted peer name h v = h
try_connect-IsKept d s ledger true false peer name h v = close-IsKept d s ledger h
try_connect-IsKept d s ledger true true peer name (inl (e, idle, same)) v = absurd (cc (rw e at v))
try_connect-IsKept d s ledger true true peer name (inr (e, one)) v =
    let connected = record s { is_connected = true } in
    Whenever-then (get_remote_address connected peer) _ (λ r. IsKept d r.1 ledger)
      (λ r. IsKept d r.1 r.2) (get_remote_address-IsKept d connected ledger peer (inr (e, one)))
      (λ met kept.
        Whenever-then (get_local_address met.1 name) _ (λ r. IsKept d r.1 ledger)
          (λ r. IsKept d r.1 r.2) (get_local_address-IsKept d met.1 ledger name kept)
          (λ named kept'. kept'))

pub connect-IsKept :
    (d : Bool) (s : Socket) (ledger : Ledger) (addr : Option IPv4Address) (waits : Bool) (fd : ℤ)
    (accepted : Bool) (peer name : Option IPv4Address)
    → IsKept d s ledger
    → Whenever (connect s ledger addr waits fd accepted peer name) (λ r. IsKept d r.1 r.2)
unfolding connect
connect-IsKept d s ledger addr waits fd accepted peer name h =
    let (s', ledger') = ensure_sock (record s { remote_address = addr }) ledger fd in
    let kept = ensure_sock-IsKept d (record s { remote_address = addr }) ledger fd h in
    elim (Bool-cases (is_valid s')) [
      | inr closed ↦ rw (closed, connect) kept
      | inl valid ↦ elim (Option-cases addr) [
        | inl e ↦ rw (valid, e, connect) tt
        | inr (address, e) ↦ elim (Bool-cases (address.sin_family == s'.family)) [
          | inr bad ↦ rw (valid, e, bad, connect) kept
          | inl good ↦
              rw (valid, e, good, connect)
                (try_connect-IsKept d s' ledger' waits accepted peer name kept valid)
        ]
      ]
    ]

pub reconnect-IsKept :
    (d : Bool) (s : Socket) (ledger : Ledger) (waits : Bool) (fd : ℤ) (accepted : Bool)
    (peer name : Option IPv4Address)
    → IsKept d s ledger
    → Whenever (reconnect s ledger waits fd accepted peer name) (λ r. IsKept d r.1 r.2)
unfolding reconnect
reconnect-IsKept d s ledger waits fd accepted peer name h = elim (Option-cases s.remote_address) [
  | inl e ↦ rw (e, reconnect) h
  | inr (a, e) ↦
      rw (e, reconnect)
        (connect-IsKept d (record s { local_address = none }) ledger (some a) waits fd accepted peer
          name h)
]
