-- ===== src/Encounters/Tests.antt =====
-- A context of one zone, for services/arena/src/ArenaServerContext.cpp.
use Prim.Native.String.{String}
use fy_s.Common.{ℕ, ◌≡◌, refl, some, List, [], ◌∷◌, arith}
use fy_s.Common.Int.{ℤ, pos}
use mathlib.Core.Option
use mathlib.Core.List.{Memᴰ}
use fy_s.BoundaryMap.{BoundaryMap, EncounterDesc, get, make_contender_rng_boundary_map}
use fy_s.BoundaryMap.Draw.{drawn}
use fy_s.Encounters.{
  EncounterContext, accumulate, sums_to_100, valid_chances, validate_encounter_context,
}
use fy_s.Encounters.Valid.{valid_context_draws}

abbrev pub desc : String → ℕ → EncounterDesc
desc key c = record { key = key; max_encountering = 4; chance = c ∷ c ∷ c ∷ [] }

abbrev pub woods : String × List EncounterDesc
woods = ("WS01", desc "wolf" 60 ∷ desc "bat" 40 ∷ [])

abbrev pub context : EncounterContext
context = record {
  range_encounter_per_zone = ("WS01", (1, 3) ∷ (2, 4) ∷ (4, 8) ∷ []) ∷ [];
  contenders_per_zone = woods ∷ [];
}

valid_context_draws_example :
    (bm : BoundaryMap EncounterDesc) × (d : EncounterDesc) × (make_contender_rng_boundary_map
        woods.1 2
      ≡ some bm)
    × (Option.map (λ (e : ℤ × EncounterDesc). e.1) (get bm (pos 99)) ≡ some d)
    × (drawn 2 99 (60 ∷ 40 ∷ []) woods.1 ≡ some d)
unfolding validate_encounter_context valid_chances sums_to_100 accumulate
valid_context_draws_example =
    valid_context_draws context woods 2 99 (60 ∷ 40 ∷ []) refl (Memᴰ.head refl) (omega arith)
      (refl, omega arith, (refl, omega arith, tt)) (omega arith) (omega arith)
