-- ===== src/Priority/Ensures.antt =====
-- Postconditions of the methods of services/arena/include/fightingPit/PriorityOrderList.hh that return.
use fy_s.Common.{◌≡◌, refl, subst, ◌⊎◌, inl, inr}
use fy_s.Priority.State.{Outcome, done, undefined, out_of_fuel, ◌>>=◌}

-- A postcondition of a method that returns.
abbrev pub Ensures {ℓ} : {A : Type ℓ} → Outcome A → (A → Type 0) → Type 0
Ensures (done a) P = P a
Ensures undefined P = Unit
Ensures out_of_fuel P = Unit

pub Ensures-bind {ℓ κ} :
    {A : Type ℓ} {B : Type κ} (m : Outcome A) (f : A → Outcome B) (P : A → Type 0) (Q : B → Type 0)
    → Ensures m P
    → ((a : A) → P a → Ensures (f a) Q)
    → Ensures (m >>= f) Q
Ensures-bind (done a) f P Q h k = k a h
Ensures-bind undefined f P Q h k = tt
Ensures-bind out_of_fuel f P Q h k = tt

-- What a method comes to.
pub Outcome-cases {ℓ} :
    {A : Type ℓ} (m : Outcome A) → ((a : A) × (m ≡ done a)) ⊎ ((m ≡ undefined) ⊎ (m ≡ out_of_fuel))
Outcome-cases (done a) = inl (a, refl)
Outcome-cases undefined = inr (inl refl)
Outcome-cases out_of_fuel = inr (inr refl)

-- The postcondition of a method that returned.
pub Ensures-done {ℓ} :
    {A : Type ℓ} (P : A → Type 0) {m : Outcome A} {a : A} → Ensures m P → m ≡ done a → P a
Ensures-done P {m = done b} h e = subst P (cc) h
Ensures-done P {m = undefined} h e = absurd (cc)
Ensures-done P {m = out_of_fuel} h e = absurd (cc)
