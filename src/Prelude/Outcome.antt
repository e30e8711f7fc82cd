-- ===== src/Prelude/Outcome.antt =====
-- The outcome of code that may stop the process or have undefined behaviour.
use mathlib.Core.Path.{◌≡◌, refl, subst}
use mathlib.Core.Bool.{Bool, true, false}
use mathlib.Core.Logic.{◌⊎◌, inl, inr}

-- `assertion`: a failed assert(). `length_error`: a container asked for more than max_size().
-- `out_of_range`: an access outside an object. `bad_position`: the exception of std::string::substr.
-- `overflow`: a shift or a sum that an int does not hold. `bad_access`: a read through an invalid pointer.
-- `end_iterator`: erase(end()). `exhausted`: the fuel of a modelled loop ran out, which the theorems exclude.
pub data Fault : Type 0 where
  assertion length_error out_of_range bad_position overflow bad_access end_iterator exhausted :
      Fault

pub data Result {ℓ} (A : Type ℓ) : Type ℓ where
  ok : A → Result A
  fault : Fault → Result A

-- assert(b), and the other conditions without which a step faults.
abbrev pub require : Bool → Fault → Result (Unit {0})
require true e = ok tt
require false e = fault e

infixl 5 ◌>>◌ ◌>>=◌
abbrev pub ◌>>=◌ {ℓ κ} : {A : Type ℓ} {B : Type κ} → Result A → (A → Result B) → Result B
ok a >>= f = f a
fault e >>= f = fault e

abbrev pub ◌>>◌ {ℓ} : {A : Type ℓ} → Result (Unit {0}) → Result A → Result A
step >> next = step >>= λ _. next

pub Result-cases {ℓ} :
    {A : Type ℓ} (m : Result A) → ((a : A) × (m ≡ ok a)) ⊎ ((e : Fault) × (m ≡ fault e))
Result-cases (ok a) = inl (a, refl)
Result-cases (fault e) = inr (e, refl)

-- The code returns, and what it returns satisfies `P`.
abbrev pub Returns {ℓ} : {A : Type ℓ} → Result A → (A → Type 0) → Type 0
Returns (ok a) P = P a
Returns (fault e) P = ⊥

pub Returns-bind {ℓ κ} :
    {A : Type ℓ} {B : Type κ} (m : Result A) (f : A → Result B) (P : A → Type 0) (Q : B → Type 0)
    → Returns m P
    → ((a : A) → P a → Returns (f a) Q)
    → Returns (m >>= f) Q
Returns-bind (ok a) f P Q h k = k a h
Returns-bind (fault e) f P Q h k = absurd h

pub Returns-mono {ℓ} :
    {A : Type ℓ} (m : Result A) (P Q : A → Type 0)
    → Returns m P
    → ((a : A) → P a → Q a)
    → Returns m Q
Returns-mono (ok a) P Q h k = k a h
Returns-mono (fault e) P Q h k = absurd h

pub Returns-eq {ℓ} :
    {A : Type ℓ} (m : Result A) (P : A → Type 0) → Returns m P → (a : A) × (m ≡ ok a) × P a
Returns-eq (ok a) P h = (a, refl, h)
Returns-eq (fault e) P h = absurd h

pub Returns-of_eq {ℓ} :
    {A : Type ℓ} {m : Result A} {a : A} (P : A → Type 0) → m ≡ ok a → P a → Returns m P
Returns-of_eq P e h = rw e h

-- What follows a step that returns.
pub bind_ok {ℓ κ} :
    {A : Type ℓ} {B : Type κ} {m : Result A} (f : A → Result B) {a : A} → m ≡ ok a → (m >>= f) ≡ f a
bind_ok f e = rw e refl

-- What the code returns, if it returns, satisfies `P`.
abbrev pub Whenever {ℓ} : {A : Type ℓ} → Result A → (A → Type 0) → Type 0
Whenever (ok a) P = P a
Whenever (fault e) P = Unit {0}

pub Whenever-bind {ℓ κ} :
    {A : Type ℓ} {B : Type κ} (m : Result A) (f : A → Result B) (Q : B → Type 0)
    → ((a : A) → Whenever (f a) Q)
    → Whenever (m >>= f) Q
Whenever-bind (ok a) f Q k = k a
Whenever-bind (fault e) f Q k = tt

pub Whenever-then {ℓ κ} :
    {A : Type ℓ} {B : Type κ} (m : Result A) (f : A → Result B) (P : A → Type 0) (Q : B → Type 0)
    → Whenever m P
    → ((a : A) → P a → Whenever (f a) Q)
    → Whenever (m >>= f) Q
Whenever-then (ok a) f P Q h k = k a h
Whenever-then (fault e) f P Q h k = tt

pub Whenever-eq {ℓ} :
    {A : Type ℓ} (m : Result A) (a : A) (P : A → Type 0) → Whenever m P → m ≡ ok a → P a
Whenever-eq (ok b) a P h e = subst P (cc e) h
Whenever-eq (fault f) a P h e = absurd (cc e)
