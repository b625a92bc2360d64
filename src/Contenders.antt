-- ===== src/Contenders.antt =====
-- The monsters of a fighting pit:
-- services/arena/include/fightingPit/contender/FightingContender.hh,
-- services/arena/include/fightingPit/contender/PitContenders.hh and
-- services/arena/src/fightingPit/contender/PitContenders.cpp.
pub mod Select
pub mod Tests
use Prim.Native.String.{String}
use fy_s.Common.{
  ℕ, zero, suc, ◌-◌, Bool, true, false, not, ◌&&◌, Option, some, List, [], ◌∷◌, ◌++◌, length,
  get_elem?, is_empty, filter, count, if◌then◌else◌,
}
use mathlib.Core.Option.{none}
use fy_s.CommonTypes.{Status, is_dead}
use fy_s.HexagonSide.Sides.{Orientation, ◌==◌}
use fy_s.HexagonSide.Moves.{HexagonSide}
use fy_s.Algorithm.{find_most_suitable}

-- `ContenderScripting`: what names the contender in the script engine.
pub record ContenderScripting : Type 0 where
  pub contender_name : String
  pub level : ℕ
  pub contender_id : ℕ

pub record FightingContender : Type 0 where
  pub contender_scripting : ContenderScripting
  pub side : HexagonSide
  pub status : Status

abbrev pub get_hexagon_side_orient : FightingContender → Orientation
get_hexagon_side_orient c = c.side.side

pub record PitContenders : Type 0 where
  pub contenders : List FightingContender
  pub change_side_flags : List Bool

abbrev pub empty_pit : PitContenders
empty_pit = record { contenders = []; change_side_flags = [] }

-- The body of the loop of `getChangingSideContenders` from index `i` on; `none` is the exception of
-- `_contenders.at(i)`.
changing_from : List FightingContender → ℕ → List Bool → Option (List FightingContender)
changing_from cs i [] = some []
changing_from cs i (flag ∷ flags) =
    let rest = changing_from cs (suc i) flags in
    if flag
    then elim (get_elem? cs i) [
      | none ↦ none
      | some c ↦ elim rest [ none ↦ none | some r ↦ some (c ∷ r) ]
    ]
    else rest

unfoldable pub get_changing_side_contenders : PitContenders → Option (List FightingContender)
unfolding changing_from
get_changing_side_contenders p = changing_from p.contenders 0 p.change_side_flags

unfoldable pub get_contender_on_side : PitContenders → Orientation → List FightingContender
get_contender_on_side p side = filter (λ c. get_hexagon_side_orient c == side) p.contenders

-- `ComparatorSelection<FightingContender>`.
abbrev pub Comparator : Type 0
Comparator = FightingContender → FightingContender → Bool

unfoldable pub select_suitable_contender : PitContenders → Comparator → Option FightingContender
select_suitable_contender p comp = find_most_suitable p.contenders comp

unfoldable pub select_suitable_contender_on_side :
    PitContenders → Orientation → Comparator → Option FightingContender
select_suitable_contender_on_side p side comp =
    find_most_suitable p.contenders
      (λ current next. get_hexagon_side_orient current == side && comp current next)

unfoldable pub select_suitable_contender_alive :
    PitContenders → Comparator → Option FightingContender
select_suitable_contender_alive p comp =
    find_most_suitable p.contenders
      (λ current next. not (is_dead current.status.life) && comp current next)

unfoldable pub select_suitable_contender_on_side_alive :
    PitContenders → Orientation → Comparator → Option FightingContender
select_suitable_contender_on_side_alive p side comp =
    find_most_suitable p.contenders (λ current next.
      not (is_dead current.status.life)
      && get_hexagon_side_orient current == side
      && comp current next)

-- `generate` is `RandomGenerator::generateInRange`, on a lower and an upper bound. Its result is
-- at least 1 here, so `- 1` is exact.
unfoldable pub select_random_contender_on_side_alive :
    (ℕ → ℕ → ℕ) → PitContenders → Orientation → Option FightingContender
select_random_contender_on_side_alive generate p side =
    let on_side = get_contender_on_side p side in
    if is_empty on_side then none else get_elem? on_side (generate 1 (length on_side) - 1)

unfoldable pub get_fighting_contender : PitContenders → ℕ → Option FightingContender
get_fighting_contender p pos = get_elem? p.contenders pos

unfoldable pub contender_on_side : PitContenders → Orientation → ℕ
contender_on_side p side = count (λ c. side == get_hexagon_side_orient c) p.contenders
