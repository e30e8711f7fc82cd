-- ===== src/Net/Stream/Whole.antt =====
-- Readn and Writen of src/_public.cpp when the connection does not end: all bytes are moved, for every
-- way in which recv and send split them.
use idc.Prelude.{
  Bytes, ℕ, zero, suc, ◌+◌, ◌-◌, ◌≤◌, ◌<◌, ◌≡◌, refl, sym, ap, ap₂, subst, ◌∙◌, true, false, List,
  [], ◌∷◌, ◌++◌, append_assoc, append-nil, Option, some, Returns, bind_ok, arith, min, length,
  length-append, length-take, length-drop, take, drop, take-append-drop, take-append_left,
  drop-append_left, drop-drop, ◌==◌,
}
use idc.Strings.Joined.{write_behind}
use idc.Net.Stream.{Incoming, Received, recv, send, readn_loop, writen_loop}

abbrev pub AllMove : List ℕ → Type 0
AllMove [] = Unit {0}
AllMove (c ∷ chunks) = (0 < c) × AllMove chunks

-- Each call moves something, and there are calls enough for `n` bytes.
abbrev pub Steady : ℕ → List ℕ → Type 0
Steady n chunks = (n ≤ length chunks) × AllMove chunks

-- What recv gives while it can move something.
recv-some :
    (bytes rest : Bytes) (c : ℕ) (chunks : List ℕ) (n : ℕ)
    → 0 < c
    → 0 < n
    → length bytes ≡ n
    → recv (record { bytes = bytes ++ rest; chunks = c ∷ chunks }) n
      ≡ some
          (take (min c n) bytes, record { bytes = drop (min c n) bytes ++ rest; chunks = chunks })
unfolding recv
recv-some bytes rest c chunks n h k e =
    let whole = length-append bytes rest in
    let part : min (min c n) (length (bytes ++ rest)) ≡ min c n = omega (arith, whole) in
    let moves : (min c n == 0) ≡ false = ground arith in
    rw (part, moves, recv)
      (ap₂ {C = Option (Bytes × Incoming)}
        (λ got left. some (got, record { bytes = left; chunks = chunks }))
        (take-append_left bytes rest (min c n) (omega arith))
        (drop-append_left bytes rest (min c n) (omega arith)))

send-some :
    (sent str : Bytes) (c : ℕ) (chunks : List ℕ)
    → 0 < c
    → 0 < length str
    → send (record { bytes = sent; chunks = c ∷ chunks }) str
      ≡ some (
        min c (length str),
        record { bytes = sent ++ take (min c (length str)) str; chunks = chunks },
      )
unfolding send
send-some sent str c chunks h k =
    let moves : (min c (length str) == 0) ≡ false = ground arith in rw (moves, send) refl

abbrev pub ReadAll : Bytes → Bytes → ℕ → Received → Type 0
ReadAll buffer rest n r =
    (r.success ≡ true)
    × (r.buffer ≡ buffer)
    × (r.incoming.bytes ≡ rest)
    × Steady n r.incoming.chunks

joined_parts :
    (text bytes tail : Bytes) (k : ℕ)
    → k ≤ length bytes
    → (text ++ take k bytes) ++ (drop k bytes ++ drop (length (drop k bytes)) (drop k tail))
      ≡ text ++ (bytes ++ drop (length bytes) tail)
joined_parts text bytes tail k h =
    append_assoc text (take k bytes) _
    ∙ ap (λ t. text ++ t)
        (sym (append_assoc (take k bytes) (drop k bytes) _)
          ∙ ap₂ {C = Bytes} (λ a b. a ++ b) (take-append-drop k bytes)
              (drop-drop k (length (drop k bytes)) tail
                ∙ ap (λ j. drop j tail) {y = length bytes} (omega (arith, length-drop k bytes))))

-- The bytes that are asked for are written to the buffer behind what stands in front of `idx`, and the
-- rest of the stream and of the buffer stays.
pub readn_loop_lem :
    (fuel : ℕ) (bytes rest text tail : Bytes) (chunks : List ℕ) (idx n : ℕ)
    → length bytes ≤ fuel
    → idx ≡ length text
    → length bytes ≤ length tail
    → Steady (length bytes + n) chunks
    → Returns
        (readn_loop fuel
          (record { bytes = bytes ++ rest; chunks = chunks })
          (text ++ tail)
          idx
          (length bytes))
        (ReadAll (text ++ (bytes ++ drop (length bytes) tail)) rest n)
unfolding readn_loop
readn_loop_lem fuel [] rest text tail chunks idx n enough at room (many, moving) =
    (refl, refl, refl, (omega arith, moving))
readn_loop_lem zero (b ∷ bs) rest text tail chunks idx n enough at room steady =
    absurd (omega arith)
readn_loop_lem (suc fuel) (b ∷ bs) rest text tail [] idx n enough at room (many, moving) =
    absurd (omega arith)
readn_loop_lem (suc fuel) (b ∷ bs) rest text tail (c ∷ chunks) idx n enough at room
      (many, (moves, moving)) =
    let bytes : Bytes = b ∷ bs in
    let k = min c (length bytes) in
    let head = take k bytes in
    let taken : length head ≡ k = omega (arith, length-take k bytes) in
    let left : length (drop k bytes) ≡ length bytes - k = length-drop k bytes in
    let s' : Incoming = record { bytes = drop k bytes ++ rest; chunks = chunks } in
    let joined = joined_parts text bytes tail k (omega arith) in
    let ih =
      readn_loop_lem fuel (drop k bytes) rest (text ++ head) (drop k tail) chunks
        (idx + length head) n (omega (arith, left)) (omega (arith, length-append text head))
        (omega (arith, left, length-drop k tail)) (omega (arith, left), moving) in
    rw (recv-some bytes rest c chunks (length bytes) moves (omega arith) refl, readn_loop)
      (subst (λ m. Returns m (ReadAll (text ++ (bytes ++ drop (length bytes) tail)) rest n))
        (sym (bind_ok _ (write_behind text tail head idx at (omega arith))))
        (subst
          (λ l.
            Returns
              (readn_loop fuel s' (text ++ (head ++ drop (length head) tail)) (idx + length head) l)
              (ReadAll (text ++ (bytes ++ drop (length bytes) tail)) rest n))
          {x = length (drop k bytes)} {y = length bytes - length head} (omega (arith, left, taken))
          (subst
            (λ buffer.
              Returns (readn_loop fuel s' buffer (idx + length head) (length (drop k bytes)))
                (ReadAll (text ++ (bytes ++ drop (length bytes) tail)) rest n))
            (append_assoc text head (drop k tail)
              ∙ ap (λ j. text ++ (head ++ drop j tail)) (sym taken))
            (subst
              (λ out.
                Returns
                  (readn_loop fuel s' ((text ++ head) ++ drop k tail) (idx + length head)
                    (length (drop k bytes)))
                  (ReadAll out rest n))
              joined ih))))

-- All bytes are sent, behind those that were sent before.
pub writen_loop_lem :
    (fuel : ℕ) (sent str : Bytes) (chunks : List ℕ)
    → length str ≤ fuel
    → Steady (length str) chunks
    → Returns
        (writen_loop fuel (record { bytes = sent; chunks = chunks }) str)
        (λ r. (r.0 ≡ true) × (r.1.bytes ≡ sent ++ str))
unfolding writen_loop
writen_loop_lem fuel sent [] chunks enough steady = (refl, sym (append-nil sent))
writen_loop_lem zero sent (b ∷ bs) chunks enough steady = absurd (omega arith)
writen_loop_lem (suc fuel) sent (b ∷ bs) [] enough (many, moving) = absurd (omega arith)
writen_loop_lem (suc fuel) sent (b ∷ bs) (c ∷ chunks) enough (many, (moves, moving)) =
    let str : Bytes = b ∷ bs in
    let k = min c (length str) in
    let left : length (drop k str) ≡ length str - k = length-drop k str in
    rw (send-some sent str c chunks moves (omega arith), writen_loop)
      (subst
        (λ out.
          Returns
            (writen_loop fuel (record { bytes = sent ++ take k str; chunks = chunks }) (drop k str))
            (λ r. (r.0 ≡ true) × (r.1.bytes ≡ out)))
        (append_assoc sent (take k str) (drop k str) ∙ ap (λ t. sent ++ t) (take-append-drop k str))
        (writen_loop_lem fuel (sent ++ take k str) (drop k str) chunks (omega (arith, left))
          (omega (arith, left), moving)))
