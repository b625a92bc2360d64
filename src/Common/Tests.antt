-- ===== src/Common/Tests.antt =====
-- Boolean tests on the native numbers, the conditional, and checks of a whole range.
use Prim.Native.Nat.{ℕ, zero, suc, ◌≤◌, ◌<◌, compare, Ordering}
use mathlib.Core.Path.{◌≡◌, refl}
use mathlib.Core.Logic.{◌↔◌, ◌⊎◌, inl, inr}
use mathlib.Core.Bool.{Bool, true, false, ◌&&◌}
use mathlib.Core.Option.{Option, none, some}
use native.Mathlib.Omega.{arith}

-- These compute to `compare`, which the tactics read.
abbrev pub ltb : ℕ → ℕ → Bool
ltb a b = elim (compare a b) [ Ordering.lt ↦ true | _ ↦ false ]

abbrev pub leb : ℕ → ℕ → Bool
leb a b = elim (compare a b) [ Ordering.gt ↦ false | _ ↦ true ]

infix 50 ◌==◌
abbrev pub ◌==◌ : ℕ → ℕ → Bool
a == b = elim (compare a b) [ Ordering.eq ↦ true | _ ↦ false ]

infix 1 if◌then◌else◌
abbrev pub if◌then◌else◌ {ℓ} : {A : Type ℓ} → Bool → A → A → A
if true then x else y = x
if false then x else y = y

pub ==_iff : (a b : ℕ) → ((a == b) ≡ true) ↔ (a ≡ b)
==_iff a b = ground arith

pub lt→ltb : (a b : ℕ) → a < b → ltb a b ≡ true
lt→ltb a b h = ground arith

pub ge→ltb : (a b : ℕ) → b ≤ a → ltb a b ≡ false
ge→ltb a b h = ground arith

pub le→leb : (a b : ℕ) → a ≤ b → leb a b ≡ true
le→leb a b h = ground arith

pub gt→leb : (a b : ℕ) → b < a → leb a b ≡ false
gt→leb a b h = ground arith

pub leb→le : (a b : ℕ) → leb a b ≡ true → a ≤ b
leb→le a b h = ground arith

pub Bool-cases : (b : Bool) → (b ≡ true) ⊎ (b ≡ false)
Bool-cases true = inl refl
Bool-cases false = inr refl

pub Option-cases {ℓ} : {A : Type ℓ} (o : Option A) → (o ≡ none) ⊎ ((a : A) × (o ≡ some a))
Option-cases none = inl refl
Option-cases (some a) = inr (a, refl)

pub &&_split : {x y : Bool} → (x && y) ≡ true → (x ≡ true) × (y ≡ true)
&&_split {x = true} {y = y} e = (refl, e)
&&_split {x = false} {y = y} e = absurd (cc)

-- A test of every number below a bound, by evaluation.
unfoldable pub tests_up_to : (ℕ → Bool) → ℕ → Bool
tests_up_to test zero = true
tests_up_to test (suc k) = tests_up_to test k && test k

pub tests_up_to_sound :
    (test : ℕ → Bool) {bound : ℕ}
    → tests_up_to test bound ≡ true
    → (i : ℕ) → i < bound
    → test i ≡ true
unfolding tests_up_to
tests_up_to_sound test {bound = zero} all i below = absurd (omega arith)
tests_up_to_sound test {bound = suc k} all i below = elim (nat_cases_lem i k below) [
  | inl less ↦ tests_up_to_sound test (&&_split all).0 i less
  | inr last ↦ rw last (&&_split {x = tests_up_to test k} all).1
]
  where
    nat_cases_lem : (i k : ℕ) → i < suc k → (i < k) ⊎ (i ≡ k)
    nat_cases_lem i k h = ground arith

pub some_eq {ℓ} : {A : Type ℓ} {x y : A} → some x ≡ some y → x ≡ y
some_eq e = cc
