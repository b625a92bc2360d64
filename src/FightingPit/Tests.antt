-- ===== src/FightingPit/Tests.antt =====
-- A pit of services/arena/src/fightingPit/FightingPit.cpp with two monsters and two teams.
use Prim.Native.String.{String}
use fy_s.Common.{◌≡◌, refl, false, List, [], ◌∷◌, map}
use mathlib.Core.List.{Memᴰ}
use fy_s.CommonTypes.{PriorityElem}
use fy_s.HexagonSide.Sides.{a_n, b_s}
use fy_s.Priority.State.{done}
use fy_s.Priority.Tests.{isort, isort-SortLaws}
use fy_s.Contenders.{FightingContender, get_contender_on_side}
use fy_s.Contenders.Select.{pit_of}
use fy_s.Contenders.Tests.{monster}
use fy_s.Team.Tests.{fighter, two_teams}
use fy_s.Team.Ids.{all_members}
use fy_s.SideBattle.{SideBattle}
use fy_s.Scripting.{World}
use fy_s.Actions.{execute_contender_action}
use fy_s.Actions.Tests.{logging}
use fy_s.FightingPit.{
  FightingPit, medium, new_fighting_pit, side_order, participants_on_side, initialize_side_battles,
  to_int,
}
use fy_s.FightingPit.Start.{AllFilled, sides_filled}
use fy_s.FightingPit.Turns.{first_contender_acts}

abbrev northerner : FightingContender
northerner = monster 0 9 a_n

abbrev southerner : FightingContender
southerner = monster 1 9 b_s

abbrev arena : World (List String)
arena = record {
  contenders = pit_of (northerner ∷ southerner ∷ []) (false ∷ false ∷ []);
  party_teams = two_teams;
  scripts = [];
}

abbrev pit : FightingPit (List String)
pit = record (new_fighting_pit "ada" medium [] 0) { world = arena }

sides_filled_example :
    (bs : List SideBattle) × (initialize_side_battles isort 0 pit
      ≡ done (record pit { side_battles = bs }))
    × (map (λ (b : SideBattle). b.side) bs ≡ side_order)
    × AllFilled (northerner ∷ southerner ∷ []) (all_members two_teams.party_teams) bs
sides_filled_example = sides_filled isort 0 pit isort-SortLaws refl (fighter 1 a_n, refl) refl

first_contender_acts_example :
    (e : PriorityElem) × Memᴰ e (participants_on_side arena.contenders two_teams b_s)
    × (e.speed ≡ to_int southerner.status.initial_speed)
    × (execute_contender_action logging e arena
        ≡ logging.run_scripted_action northerner.contender_scripting arena)
unfolding get_contender_on_side
first_contender_acts_example =
    first_contender_acts logging arena b_s northerner southerner (southerner ∷ []) [] refl refl
