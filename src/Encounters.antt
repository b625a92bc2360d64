-- ===== src/Encounters.antt =====
-- The encounters of the zones: `EncounterContext` of services/arena/include/ArenaServerContext.hh and
-- its validation in services/arena/src/ArenaServerContext.cpp. An array is a list of its elements.
pub mod Valid
pub mod Tests
use Prim.Native.String.{String}
use text.Mathlib.Text.{◌==◌ as str_eq}
use fy_s.Common.{
  ℕ, Bool, if◌then◌else◌, true, false, not, ◌&&◌, Option, some, List, [], ◌∷◌, ltb, get_elem?,
  add_uint, ◌==◌,
}
use mathlib.Core.Option.{none}
use fy_s.BoundaryMap.{EncounterDesc}

pub record EncounterContext : Type 0 where
  pub range_encounter_per_zone : List (String × List (ℕ × ℕ))
  pub contenders_per_zone : List (String × List EncounterDesc)

-- `std::map::at`, and `find`, by the code of the world server; `none` is the exception or the end.
unfoldable pub at_zone {ℓ} : {A : Type ℓ} → List (String × A) → String → Option A
at_zone [] ws_id = none
at_zone ((key, a) ∷ zones) ws_id =
    let other = at_zone zones ws_id in if str_eq key ws_id then some a else other

unfoldable pub zone_registered : EncounterContext → String → Bool
unfolding at_zone
zone_registered ctx ws_id = elim (at_zone ctx.contenders_per_zone ws_id) [
  | none ↦ false
  | some zone ↦ true
]

-- The array of chances has an element for each of the three difficulties.
abbrev pub chance_at : EncounterDesc → ℕ → ℕ
chance_at d i = elim (get_elem? d.chance i) [ none ↦ 0 | some c ↦ c ]

-- `std::accumulate` over `uint`.
unfoldable pub accumulate : ℕ → ℕ → List EncounterDesc → ℕ
accumulate i val [] = val
accumulate i val (rhs ∷ rest) = accumulate i (add_uint val (chance_at rhs i)) rest

abbrev pub all_positive : List (ℕ × ℕ) → Bool
all_positive [] = true
all_positive (r ∷ rs) = ltb 0 r.0 && all_positive rs

abbrev pub valid_ranges : List (String × List (ℕ × ℕ)) → Bool
valid_ranges [] = true
valid_ranges (zone ∷ zones) = all_positive zone.1 && valid_ranges zones

-- The three rounds of the inner loop.
unfoldable pub sums_to_100 : List EncounterDesc → Bool
unfolding accumulate
sums_to_100 v = accumulate 0 0 v == 100 && (accumulate 1 0 v == 100 && accumulate 2 0 v == 100)

unfoldable pub valid_chances : List (String × List EncounterDesc) → Bool
unfolding sums_to_100
valid_chances [] = true
valid_chances (zone ∷ zones) = sums_to_100 zone.1 && valid_chances zones

unfoldable pub validate_encounter_context : EncounterContext → Bool
unfolding valid_chances
validate_encounter_context ctx =
    valid_ranges ctx.range_encounter_per_zone && valid_chances ctx.contenders_per_zone
