-- ===== src/BoundaryMap.antt =====
-- The map from an index to the entry at its upper boundary,
-- services/common/include/BoundaryMap.hh, and its use for the monsters of a zone,
-- services/arena/src/fightingPit/FightingPitAnnouncer.cpp. The indices are an `int` of 32 bits.
pub mod Draw
mod Tests
use Prim.Native.String.{String}
use text.Mathlib.Text.{◌==◌ as str_eq}
use fy_s.Common.{
  ℕ, ◌-◌, ◌%◌, ◌^◌, uint_mod, add_uint, Bool, true, false, not, ◌&&◌, Option, some, List, [], ◌∷◌,
  if◌then◌else◌, ltb, get_elem?, ◌==◌,
}
use fy_s.Common.Int.{ℤ, pos, negsuc, ◌+ℤ◌, ltb_ℤ, leb_ℤ, eqb_ℤ}
use mathlib.Core.Option.{none}

-- `std::map<int, T>`, by growing keys.
abbrev pub BoundaryMap {ℓ} : Type ℓ → Type ℓ
BoundaryMap A = List (ℤ × A)

module _ {ℓ} {A : Type ℓ} where
  -- `lower_bound`: the first entry whose key is not less; `none` is `end()`.
  unfoldable pub get : BoundaryMap A → ℤ → Option (ℤ × A)
  get [] index = none
  get ((k, a) ∷ rest) index =
      let further = get rest index in if leb_ℤ index k then some (k, a) else further

  -- The assignment to `operator[]`.
  unfoldable pub put : BoundaryMap A → ℤ → A → BoundaryMap A
  put [] key a = (key, a) ∷ []
  put ((k, b) ∷ rest) key a =
      let further = put rest key a in
      if ltb_ℤ k key
      then (k, b) ∷ further
      else if eqb_ℤ k key
      then (key, a) ∷ rest
      else (key, a) ∷ (k, b) ∷ rest

  -- `differ` is `operator!=`. An element equal to the one found erases it and then reads the erased
  -- iterator, which C++ leaves undefined, as it does the number behind the last one: `none`.
  unfoldable pub insert : (A → A → Bool) → BoundaryMap A → ℤ → A → Option (BoundaryMap A)
  unfolding get put ◌+ℤ◌
  insert differ map index element = elim (get map index) [
    | none ↦ some (put map index element)
    | some (k, b) ↦
        if differ element b && ltb_ℤ k (pos 2147483647)
        then some (put map (k +ℤ pos 1) element)
        else none
  ]

-- `chance` has an entry for each difficulty.
pub record EncounterDesc : Type 0 where
  pub key : String
  pub max_encountering : ℕ
  pub chance : List ℕ

abbrev pub same_chances : List ℕ → List ℕ → Bool
same_chances [] [] = true
same_chances [] (n ∷ ns) = false
same_chances (m ∷ ms) [] = false
same_chances (m ∷ ms) (n ∷ ns) = m == n && same_chances ms ns

abbrev pub desc_differs : EncounterDesc → EncounterDesc → Bool
desc_differs d e = not (
    str_eq d.key e.key
    && d.max_encountering == e.max_encountering
    && same_chances d.chance e.chance)

-- The conversions between `int` and `uint`, and the sum of an `int` and a `uint`, which is a `uint`,
-- as an `int` again.
abbrev pub int_of : ℕ → ℤ
int_of n = if ltb n (2 ^ 31) then pos n else negsuc (uint_mod - 1 - n)

abbrev pub uint_of : ℤ → ℕ
uint_of (pos n) = n % uint_mod
uint_of (negsuc n) = (uint_mod - 1 - n) % uint_mod

abbrev pub add_chance : ℤ → ℕ → ℤ
add_chance val c = int_of (add_uint (uint_of val) c)

-- The loop of `makeContenderRngBoundaryMap`, from a sum and a map on; `none` is the exception of
-- `chance.at`, or the undefined case of `insert`.
unfoldable pub make_from :
    ℕ → ℤ → BoundaryMap EncounterDesc → List EncounterDesc → Option (BoundaryMap EncounterDesc)
unfolding insert
make_from difficulty val bm [] = some bm
make_from difficulty val bm (zc ∷ zcs) = elim (get_elem? zc.chance difficulty) [
  | none ↦ none
  | some c ↦ elim (insert desc_differs bm (add_chance val c) zc) [
    | none ↦ none
    | some bm' ↦ make_from difficulty (add_chance val c) bm' zcs
  ]
]

unfoldable pub make_contender_rng_boundary_map :
    List EncounterDesc → ℕ → Option (BoundaryMap EncounterDesc)
unfolding make_from
make_contender_rng_boundary_map zone_contenders difficulty =
    make_from difficulty (pos 0) [] zone_contenders
