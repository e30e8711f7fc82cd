-- ===== src/Prelude/Heap.antt =====
-- Memory that pointers point into: a function from addresses.
use idc.Prelude.Tests.{◌==◌, if◌then◌else◌, Bool-cases}
use Prim.Native.Nat.{ℕ}
use mathlib.Core.Bool.{true, false}
use mathlib.Core.Path.{◌≡◌, refl, ap, ◌∙◌}
use mathlib.Core.Logic.{inl, inr}
use native.Mathlib.Omega.{arith}

abbrev pub put {ℓ} : {A : Type ℓ} → (ℕ → A) → ℕ → A → ℕ → A
put heap p x q = if p == q then x else heap q

-- A property of all objects holds after a write if it holds for what is written.
pub put-each {ℓ} :
    {A : Type ℓ} (P : A → Type 0) (heap : ℕ → A) (p : ℕ) (x : A)
    → ((q : ℕ) → P (heap q))
    → P x
    → (q : ℕ) → P (put heap p x q)
put-each P heap p x h hx q = elim (p == q) as (λ b. P (if b then x else heap q)) [
  | true ↦ hx
  | false ↦ h q
]

-- A view that the new object has in common with the old one is that of the memory before the write.
pub put_view {ℓ κ} :
    {A : Type ℓ} {B : Type κ} (view : A → B) (heap : ℕ → A) (p : ℕ) (x : A)
    → view x ≡ view (heap p)
    → (q : ℕ) → view (put heap p x q) ≡ view (heap q)
put_view view heap p x same q = elim (Bool-cases (p == q)) [
  | inl here ↦ rw here (same ∙ ap (λ i. view (heap i)) {y = q} (ground arith))
  | inr other ↦ rw other refl
]

pub put_here {ℓ} : {A : Type ℓ} (heap : ℕ → A) (p : ℕ) (x : A) → put heap p x p ≡ x
put_here heap p x = let same : (p == p) ≡ true = ground arith in rw same refl

pub put_apart {ℓ} :
    {A : Type ℓ} (heap : ℕ → A) (p : ℕ) (x : A) (q : ℕ) → (p == q) ≡ false → put heap p x q ≡ heap q
put_apart heap p x q other = rw other refl
