-- ===== src/Priority/State.antt =====
-- The state of services/arena/include/fightingPit/PriorityOrderList.hh, what a method can come to, and
-- the loops of the standard library that it calls.
use fy_s.Common.{
  ℕ, suc, ◌-◌, ◌%◌, Bool, false, Option, some, List, [], ◌∷◌, ◌++◌, if◌then◌else◌, leb, take, drop,
  uint_mod,
}
use fy_s.Common.Int.{ℤ, pos, negsuc}
use mathlib.Core.Option.{none}
use mathlib.Core.List.{reverse}
use fy_s.CommonTypes.{PriorityElem}

pub record PriorityOrderList : Type 0 where
  pub base_speed : List PriorityElem
  pub priority_list : List PriorityElem
  pub analyzed_list : List PriorityElem
  pub current_prio : PriorityElem
  pub current_turn : ℕ

-- `{0, 0, false}`, and the value of `_currentPrio{}`.
abbrev pub no_participant : PriorityElem
no_participant = record { id = 0; speed = pos 0; is_contender = false }

-- A method returns, or meets what C++ leaves undefined (`back` of an empty vector, a range whose end
-- lies before its begin); `out_of_fuel` is the model's alone.
pub data Outcome {ℓ} (A : Type ℓ) : Type ℓ where
  done : A → Outcome A
  undefined : Outcome A
  out_of_fuel : Outcome A

-- The calls that follow a method that returned.
infixl 5 ◌>>=◌
abbrev pub ◌>>=◌ {ℓ κ} : {S : Type ℓ} {T : Type κ} → Outcome S → (S → Outcome T) → Outcome T
out_of_fuel >>= rest = out_of_fuel
undefined >>= rest = undefined
done s >>= rest = rest s

-- The conversion of an `int` to `uint`.
abbrev pub to_uint : ℤ → ℕ
to_uint (pos n) = n % uint_mod
to_uint (negsuc n) = uint_mod - 1 - n % uint_mod

module _ {ℓ} {A : Type ℓ} where
  -- `std::adjacent_find` from the index `i` on, where `x` stands; `none` is `end()`.
  unfoldable pub adjacent_from : (A → A → Bool) → ℕ → A → List A → Option ℕ
  adjacent_from p i x [] = none
  adjacent_from p i x (y ∷ ys) =
      let rest = adjacent_from p (suc i) y ys in if p x y then some i else rest

  unfoldable pub adjacent_find : (A → A → Bool) → List A → Option ℕ
  unfolding adjacent_from
  adjacent_find p [] = none
  adjacent_find p (x ∷ xs) = adjacent_from p 0 x xs

  -- `std::reverse` of the range from index `first` up to `last`.
  unfoldable pub reverse_range : List A → ℕ → ℕ → Outcome (List A)
  reverse_range xs first last =
      if leb first last
      then done (take first xs ++ (reverse (take (last - first) (drop first xs)) ++ drop last xs))
      else undefined

  -- A list as its elements before the last, and the last.
  abbrev pub unsnoc : List A → Option (List A × A)
  unsnoc [] = none
  unsnoc (x ∷ xs) = elim (unsnoc xs) [ none ↦ some ([], x) | some (ys, y) ↦ some (x ∷ ys, y) ]
