-- ===== src/Net/Stream.antt =====
-- Readn and Writen of src/_public.cpp. What recv and send do is an argument: a list says how many bytes
-- each call can move, and zero stands for a result that is not positive.
pub mod Whole
use idc.Prelude.{
  Bytes, ℕ, zero, suc, ◌+◌, ◌-◌, ◌%◌, ◌^◌, min, Bool, true, false, List, [], ◌∷◌, ◌++◌, Option,
  none, some, Result, ok, fault, ◌>>=◌, ◌>>◌, require, out_of_range, exhausted, if◌then◌else◌, ltb,
  leb, ◌==◌, length, take, drop,
}
use idc.Buffer.{copy_at}

-- The bytes that the peer sends, and how many have arrived for each recv.
pub record Incoming : Type 0 where
  pub bytes : Bytes
  pub chunks : List ℕ

-- The bytes that were sent, and how many each send takes.
pub record Outgoing : Type 0 where
  pub bytes : Bytes
  pub chunks : List ℕ

-- recv of at most `n` bytes, which come in the order in which they were sent.
unfoldable pub recv : Incoming → ℕ → Option (Bytes × Incoming)
recv s n = elim (s.chunks) [
  | [] ↦ none
  | c ∷ chunks ↦
      let k = min (min c n) (length s.bytes) in
      if k == 0
      then none
      else some (take k s.bytes, record { bytes = drop k s.bytes; chunks = chunks })
]

unfoldable pub send : Outgoing → Bytes → Option (ℕ × Outgoing)
send s str = elim (s.chunks) [
  | [] ↦ none
  | c ∷ chunks ↦
      let k = min c (length str) in
      if k == 0 then none else some (k, record { bytes = s.bytes ++ take k str; chunks = chunks })
]

-- A conversion of size_t to int, for a loop that runs while the int is positive.
unfoldable pub int_part : ℕ → ℕ
int_part n = if ltb (n % 2 ^ 32) (2 ^ 31) then n % 2 ^ 32 else 0

pub record Received : Type 0 where
  pub success : Bool
  pub buffer : Bytes
  pub incoming : Incoming

-- The loop of Readn, with `left` for nLeft. A recv that succeeds moves at least one byte, so fuel
-- `left` is enough.
unfoldable pub readn_loop : ℕ → Incoming → Bytes → ℕ → ℕ → Result Received
unfolding recv copy_at
readn_loop fuel s buffer idx zero = ok (record { success = true; buffer = buffer; incoming = s })
readn_loop zero s buffer idx (suc left) = fault exhausted
readn_loop (suc fuel) s buffer idx (suc left) = elim (recv s (suc left)) [
  | none ↦ ok (record { success = false; buffer = buffer; incoming = s })
  | some (got, s') ↦ copy_at buffer idx got >>= λ next.
      readn_loop fuel s' next (idx + length got) (suc left - length got)
]

unfoldable pub readn : Incoming → Bytes → ℕ → Result Received
unfolding readn_loop int_part
readn s buffer n = readn_loop (int_part n) s buffer 0 (int_part n)

-- The loop of Writen. `str` is what stands in the buffer between `idx` and `idx + nLeft`.
unfoldable pub writen_loop : ℕ → Outgoing → Bytes → Result (Bool × Outgoing)
unfolding send
writen_loop fuel s [] = ok (true, s)
writen_loop zero s (c ∷ cs) = fault exhausted
writen_loop (suc fuel) s (c ∷ cs) = elim (send s (c ∷ cs)) [
  | none ↦ ok (false, s)
  | some (k, s') ↦ writen_loop fuel s' (drop k (c ∷ cs))
]

unfoldable pub writen : Outgoing → Bytes → ℕ → Result (Bool × Outgoing)
unfolding writen_loop int_part
writen s buffer n =
    require (leb (int_part n) (length buffer)) out_of_range
    >> writen_loop (int_part n) s (take (int_part n) buffer)
