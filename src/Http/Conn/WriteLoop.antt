-- ===== src/Http/Conn/WriteLoop.antt =====
-- HttpConn::write of src/httpconn.cpp: what is on the wire when it returns.
use idc.Prelude.{
  Bytes, ℕ, zero, suc, ◌+◌, min, ◌≤◌, ◌<◌, ◌≡◌, refl, ap, ◌∙◌, ◌⊎◌, inl, inr, Bool, true, false,
  ◌||◌, ◌++◌, append_assoc, Result, ok, ◌>>=◌, Returns, Returns-bind, arith, ◌==◌, Bool-cases,
  length, length-append, length-take, take, add64,
}
use idc.Buffer.{Transfer, failed, moved}
use idc.Http.Conn.{HttpConn, offered, written, write_loop, write, to_write_bytes, is_above}
use idc.Http.Conn.Delivery.{
  Ready, Moved, written-Moved, file_part, length-offered, length-file_part,
}

-- What write leaves: the bytes on the wire and those that are still offered are the ones that were
-- offered before; on an edge-triggered socket the last call of writev failed or moved nothing.
pub record Delivered (is_et : Bool) (c : HttpConn) (x : HttpConn × Transfer ℕ × Bytes)
    : Type 0 where
  pub ready : Ready x.0
  pub wire : x.2 ++ offered x.0 ≡ offered c
  pub stopped : is_et ≡ true → (x.1 ≡ moved 0) ⊎ ((errno : ℕ) × (x.1 ≡ failed errno))

length_0-offered :
    (c : HttpConn) → Ready c → add64 c.iov_0.len c.iov_1.len ≡ 0 → length (offered c) ≡ 0
length_0-offered c r e = elim (Bool-cases (c.iov_cnt == 2)) [
  | inl two ↦ omega (arith, length-offered c r, length-file_part c r two, r.sizes, e)
  | inr one ↦ omega (arith, length-offered c r, no_file one, r.sizes, e)
]
  where
    no_file : (c.iov_cnt == 2) ≡ false → length (file_part c) ≡ 0
    no_file one = rw one refl

-- A round that sends `len` bytes before the others of the loop.
later :
    (is_et : Bool) (c next : HttpConn) (len : ℕ) (m : Result (HttpConn × Transfer ℕ × Bytes))
    → Moved c len next
    → Returns m (Delivered is_et next)
    → Returns
        (m >>= λ (end, result, rest). ok (end, result, take len (offered c) ++ rest))
        (Delivered is_et c)
later is_et c next len m d h = Returns-bind m _ (Delivered is_et next) (Delivered is_et c) h λ x e.
    record {
      ready = e.ready;
      wire =
          append_assoc (take len (offered c)) x.2 (offered x.0)
          ∙ ap (λ t. take len (offered c) ++ t) e.wire
          ∙ d.rest;
      stopped = e.stopped;
    }

-- A call of writev that ends the loop has moved nothing.
last-Delivered :
    (is_et : Bool) (c : HttpConn) (len : ℕ)
    → Ready c
    → len ≤ length (offered c)
    → (len == 0 || add64 c.iov_0.len c.iov_1.len == 0) ≡ true
    → Delivered is_et c (c, moved len, take len (offered c))
last-Delivered is_et c len r h stop =
    let nothing : len ≡ 0 = ground (arith, length_0-offered c r) in
    record {
      ready = r;
      wire = ap (λ n. take n (offered c) ++ offered c) nothing;
      stopped = λ _. inl (ap {B = Transfer ℕ} (λ n. moved n) nothing);
    }

-- The loop ends after a round that moved `len` bytes.
enough-Delivered :
    (is_et : Bool) (c next : HttpConn) (len : ℕ)
    → Moved c len next
    → (is_et || is_above 10240 (to_write_bytes next)) ≡ false
    → Delivered is_et c (next, moved len, take len (offered c))
enough-Delivered is_et c next len d stop = record {
  ready = d.ready;
  wire = d.rest;
  stopped = λ et. ground arith;
}

shorter :
    (c next : HttpConn) (len : ℕ)
    → Moved c len next
    → len ≤ length (offered c)
    → length (offered next) + len ≡ length (offered c)
shorter c next len d h = omega (
  arith,
  ap length d.rest,
  length-append (take len (offered c)) (offered next),
  length-take len (offered c),
)

write_loop-Delivered :
    (fuel : ℕ) (is_et : Bool) (c : HttpConn) (accept : ℕ → Transfer ℕ)
    → Ready c
    → length (offered c) < fuel
    → Returns (write_loop fuel is_et c accept) (Delivered is_et c)
unfolding write_loop
write_loop-Delivered zero is_et c accept r h = absurd (omega arith)
write_loop-Delivered (suc fuel) is_et c accept r h =
    go (λ next n k. write_loop-Delivered fuel is_et next (λ k. accept (suc k)) n k) (accept 0) refl
  where
    go :
        ((next : HttpConn)
          → Ready next
          → length (offered next) < fuel
          → Returns (write_loop fuel is_et next (λ k. accept (suc k))) (Delivered is_et next))
        → (t : Transfer ℕ) → accept 0 ≡ t
        → Returns (write_loop (suc fuel) is_et c accept) (Delivered is_et c)
    go ih (failed errno) e =
        rw (e, write_loop) (record { ready = r; wire = refl; stopped = λ _. inr (errno, refl) })
    go ih (moved room) e =
        let len = min room (length (offered c)) in
        let fits : len ≤ length (offered c) = omega arith in
        rw (e, write_loop)
          (elim (Bool-cases (len == 0 || add64 c.iov_0.len c.iov_1.len == 0)) [
            | inl stop ↦ rw stop (last-Delivered is_et c len r fits stop)
            | inr goes ↦ rw goes (
                Returns-bind (written c len) _ (Moved c len) (Delivered is_et c)
                  (written-Moved c len r fits)
                  λ next d. elim (Bool-cases (is_et || is_above 10240 (to_write_bytes next))) [
                    | inl again ↦ rw again (
                        later is_et c next len _ d
                          (ih next d.ready (ground (arith, shorter c next len d fits))))
                    | inr ends ↦ rw ends (enough-Delivered is_et c next len d ends)
                  ])
          ])

-- On a connection that is ready to write, write returns whatever each call of writev does: it fails no
-- assertion, no byte is lost, sent twice or out of order, the connection is ready for the next call,
-- and on an edge-triggered socket it ends only after a call that failed or moved nothing.
pub write-Delivered :
    (is_et : Bool) (c : HttpConn) (accept : ℕ → Transfer ℕ)
    → Ready c
    → Returns (write is_et c accept) (Delivered is_et c)
unfolding write
write-Delivered is_et c accept r =
    write_loop-Delivered (suc (length (offered c))) is_et c accept r (omega arith)
