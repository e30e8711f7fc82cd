-- ===== src/Http/Conn/Counting.antt =====
-- init and Close of src/httpconn.cpp over the connections of a server: the number of users.
use idc.Prelude.{
  ℕ, zero, suc, ◌+◌, ◌≡◌, sym, subst, ap, ◌∙◌, inl, inr, if◌then◌else◌, List, [], ◌∷◌, Result, ok,
  fault, ◌>>=◌, ◌>>◌, require, assertion, out_of_range, Bool-cases, arith, ℤ, pos, negsuc, ◌+ℤ◌,
}
use idc.Http.Conn.{HttpConn, SockAddr, Users, is_positive, init, close}

-- What a server does with the connection at an index.
pub data Event : Type 0 where
  accepted : ℕ → ℤ → SockAddr → Event
  closes : ℕ → Event

-- A connection is only initialised while it is closed.
unfoldable pub step : Users → List HttpConn → Event → Result (Users × List HttpConn)
step users [] event = fault out_of_range
step users (c ∷ cs) (accepted zero fd addr) =
    require c.is_close assertion >> (init users c fd addr >>= λ (users', c'). ok (users', c' ∷ cs))
step users (c ∷ cs) (accepted (suc i) fd addr) =
    step users cs (accepted i fd addr) >>= λ (users', cs'). ok (users', c ∷ cs')
step users (c ∷ cs) (closes zero) = let (users', c') = close users c in ok (users', c' ∷ cs)
step users (c ∷ cs) (closes (suc i)) =
    step users cs (closes i) >>= λ (users', cs'). ok (users', c ∷ cs')

unfoldable pub run : Users → List HttpConn → List Event → Result (Users × List HttpConn)
run users cs [] = ok (users, cs)
run users cs (event ∷ events) = step users cs event >>= λ (users', cs'). run users' cs' events

abbrev pub open_count : List HttpConn → ℕ
open_count [] = 0
open_count (c ∷ cs) = if c.is_close then open_count cs else suc (open_count cs)

-- If the code returns, what it returns satisfies `P`.
abbrev Kept {ℓ} : {A : Type ℓ} → (A → Type 0) → Result A → Type 0
Kept P (ok a) = P a
Kept P (fault e) = Unit {0}

Kept-bind {ℓ κ} :
    {A : Type ℓ} {B : Type κ} (P : A → Type 0) (Q : B → Type 0) (m : Result A) (f : A → Result B)
    → Kept P m
    → ((a : A) → P a → Kept Q (f a))
    → Kept Q (m >>= f)
Kept-bind P Q (ok a) f h k = k a h
Kept-bind P Q (fault e) f h k = tt

add_one : (n : ℕ) → pos n +ℤ pos 1 ≡ pos (suc n)
unfolding ◌+ℤ◌
add_one n = ground arith

sub_one : (n : ℕ) → pos (suc n) +ℤ negsuc 0 ≡ pos n
unfolding ◌+ℤ◌
sub_one n = ground arith

-- `k` users besides those of the list.
abbrev Counts : ℕ → Users × List HttpConn → Type 0
Counts k (users, cs) = users.user_count ≡ pos (k + open_count cs)

accepted-Counts :
    (k : ℕ) (users : Users) (c : HttpConn) (cs : List HttpConn) (fd : ℤ) (addr : SockAddr)
    → Counts k (users, c ∷ cs)
    → Kept (Counts k) (step users (c ∷ cs) (accepted zero fd addr))
unfolding step init
accepted-Counts k users c cs fd addr h = elim (Bool-cases c.is_close) [
  | inr open_now ↦ rw open_now tt
  | inl closed_now ↦ elim (Bool-cases (is_positive fd)) [
    | inr bad ↦ rw (closed_now, bad, init) tt
    | inl good ↦
        rw (closed_now, good, init)
          (ap (λ n. n +ℤ pos 1) (rw closed_now at h)
            ∙ add_one (k + open_count cs)
            ∙ ap pos (omega arith))
  ]
]

closes-Counts :
    (k : ℕ) (users : Users) (c : HttpConn) (cs : List HttpConn)
    → Counts k (users, c ∷ cs)
    → Kept (Counts k) (step users (c ∷ cs) (closes zero))
unfolding step close
closes-Counts k users c cs h = elim (Bool-cases c.is_close) [
  | inl closed_now ↦ rw (closed_now, close) (rw closed_now at h)
  | inr open_now ↦
      rw (open_now, close)
        (ap (λ n. n +ℤ negsuc 0)
            (rw open_now at h ∙ ap pos {y = suc (k + open_count cs)} (omega arith))
          ∙ sub_one (k + open_count cs))
]

-- The users besides those of the list's rest.
abbrev with_head : ℕ → HttpConn → ℕ
with_head k c = if c.is_close then k else suc k

with_head-Counts :
    (k : ℕ) (c : HttpConn) (cs : List HttpConn)
    → with_head k c + open_count cs ≡ k + open_count (c ∷ cs)
with_head-Counts k c cs = ground arith

deeper-Counts :
    (k : ℕ) (c : HttpConn) (m : Result (Users × List HttpConn))
    → Kept (Counts (with_head k c)) m
    → Kept (Counts k) (m >>= λ (users, cs). ok (users, c ∷ cs))
deeper-Counts k c m h =
    Kept-bind (Counts (with_head k c)) (Counts k) m _ h λ x e. e ∙ ap pos (with_head-Counts k c x.1)

step-Counts :
    (k : ℕ) (users : Users) (cs : List HttpConn) (event : Event)
    → Counts k (users, cs)
    → Kept (Counts k) (step users cs event)
unfolding step
step-Counts k users [] event h = tt
step-Counts k users (c ∷ cs) (accepted zero fd addr) h = accepted-Counts k users c cs fd addr h
step-Counts k users (c ∷ cs) (closes zero) h = closes-Counts k users c cs h
step-Counts k users (c ∷ cs) (accepted (suc i) fd addr) h =
    deeper-Counts k c (step users cs (accepted i fd addr)) (
      step-Counts (with_head k c) users cs (accepted i fd addr)
        (h ∙ ap pos (sym (with_head-Counts k c cs))))
step-Counts k users (c ∷ cs) (closes (suc i)) h =
    deeper-Counts k c (step users cs (closes i))
      (step-Counts (with_head k c) users cs (closes i) (h ∙ ap pos (sym (with_head-Counts k c cs))))

run-Counts :
    (users : Users) (cs : List HttpConn) (events : List Event)
    → Counts 0 (users, cs)
    → Kept (Counts 0) (run users cs events)
unfolding run
run-Counts users cs [] h = h
run-Counts users cs (event ∷ events) h =
    Kept-bind (Counts 0) (Counts 0) (step users cs event) _ (step-Counts 0 users cs event h)
      λ x e. run-Counts x.0 x.1 events e

-- Over any history that initialises connections only while they are closed and closes them at any time,
-- and that starts with as many users as there are open connections, userCount is the number of
-- connections that are open.
pub run-open_count :
    (users users' : Users) (cs cs' : List HttpConn) (events : List Event)
    → users.user_count ≡ pos (open_count cs)
    → run users cs events ≡ ok (users', cs')
    → users'.user_count ≡ pos (open_count cs')
run-open_count users users' cs cs' events h e =
    subst (Kept (Counts 0)) e (run-Counts users cs events (h ∙ ap pos (omega arith)))
    ∙ ap pos (omega arith)

-- Closing a connection twice closes its descriptor once: the second Close leaves the count, the
-- descriptors closed and the connection as the first one left them.
pub close-close :
    (users : Users) (c : HttpConn)
    → let (users', c') = close users c in close users' c' ≡ (users', c')
unfolding close idc.Http.Response.unmap_file
close-close users c = ground arith
