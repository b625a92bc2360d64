-- ===== src/BoundaryMap/Tests.antt =====
-- Two monsters of a zone, for services/arena/src/fightingPit/FightingPitAnnouncer.cpp.
use Prim.Native.String.{String}
use fy_s.Common.{ℕ, ◌≡◌, refl, some, [], ◌∷◌, arith}
use fy_s.Common.Int.{ℤ, pos, negsuc}
use mathlib.Core.Option
use mathlib.Core.Option.{none}
use fy_s.BoundaryMap.{
  make_from, insert, put, BoundaryMap, get, EncounterDesc, make_contender_rng_boundary_map,
}
use fy_s.BoundaryMap.Draw.{drawn, draws_by_chance}

abbrev desc : String → ℕ → EncounterDesc
desc key chance = record { key = key; max_encountering = 4; chance = chance ∷ [] }

draw_test :
    get ((pos 60, desc "wolf" 60) ∷ (pos 100, desc "bat" 40) ∷ []) (pos 61)
    ≡ some (pos 100, desc "bat" 40)
unfolding get
draw_test = refl

draws_by_chance_example :
    (bm : BoundaryMap EncounterDesc) × (d : EncounterDesc) × (make_contender_rng_boundary_map
        (desc "wolf" 60 ∷ desc "bat" 40 ∷ [])
        0
      ≡ some bm)
    × (Option.map (λ (e : ℤ × EncounterDesc). e.1) (get bm (pos 61)) ≡ some d)
    × (drawn 0 61 (60 ∷ 40 ∷ []) (desc "wolf" 60 ∷ desc "bat" 40 ∷ []) ≡ some d)
draws_by_chance_example =
    draws_by_chance 0 61 (60 ∷ 40 ∷ []) (desc "wolf" 60 ∷ desc "bat" 40 ∷ [])
      (refl, omega arith, (refl, omega arith, tt)) (omega arith) (omega arith) (omega arith)

-- A chance that reaches the sign stands below 0, and is not drawn.
overflown :
    (make_contender_rng_boundary_map (desc "wolf" 3000000000 ∷ []) 0
      ≡ some ((negsuc 1294967295, desc "wolf" 3000000000) ∷ []))
    × (get ((negsuc 1294967295, desc "wolf" 3000000000) ∷ []) (pos 100) ≡ none)
unfolding make_contender_rng_boundary_map make_from insert get put
overflown = (refl, refl)
