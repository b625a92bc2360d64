-- ===== src/Priority/Operations.antt =====
-- The public methods of services/arena/include/fightingPit/PriorityOrderList.hh, as
-- services/arena/src/fightingPit/PriorityOrderList.cpp has them.
use fy_s.Common.{
  ℕ, zero, suc, ◌*◌, Bool, true, false, not, ◌&&◌, some, List, [], ◌∷◌, ◌++◌, if◌then◌else◌, length,
  is_empty, any, filter, replicate, ltb, ◌==◌,
}
use fy_s.Common.Int.{ℤ, ◌+ℤ◌}
use mathlib.Core.Option.{none}
use fy_s.CommonTypes.{PriorityElem}
use fy_s.Priority.State.{
  PriorityOrderList, no_participant, Outcome, done, out_of_fuel, ◌>>=◌, unsnoc,
}
use fy_s.Priority.Turns.{back_or, sort_base_and_calculate_priority}

-- `PriorityOrderList() = default`.
abbrev pub empty_order : PriorityOrderList
empty_order = record {
  base_speed = [];
  priority_list = [];
  analyzed_list = [];
  current_prio = no_participant;
  current_turn = 0;
}

abbrev pub is_order_empty : PriorityOrderList → Bool
is_order_empty s = is_empty s.base_speed

abbrev pub same_bool : Bool → Bool → Bool
same_bool true b = b
same_bool false b = not b

-- `prioElem.id == id && prioElem.isContender == isContender`.
abbrev pub is_participant : ℕ → Bool → PriorityElem → Bool
is_participant id is_contender e = e.id == id && same_bool e.is_contender is_contender

unfoldable pub remove_participant_from_list : PriorityOrderList → ℕ → PriorityOrderList
remove_participant_from_list s id_participant =
    let stays = λ (e : PriorityElem). not (e.id == id_participant) in
    record s {
      base_speed = filter stays s.base_speed;
      priority_list = filter stays s.priority_list;
      analyzed_list = filter stays s.analyzed_list;
    }

module _ (sort : List PriorityElem → List PriorityElem) where
  -- `PriorityOrderList(std::vector<data::PriorityElem> baseSpeed)`.
  unfoldable pub order_of : ℕ → List PriorityElem → Outcome PriorityOrderList
  unfolding sort_base_and_calculate_priority
  order_of fuel base = sort_base_and_calculate_priority sort fuel (record empty_order {
    base_speed = base;
    priority_list = replicate (length base * 4) no_participant;
  })

  -- `getFastestBaseSpeed` is read behind `emplace_back`, so it is the new speed.
  unfoldable pub add_participant_in_list :
      ℕ → PriorityOrderList → ℕ → ℤ → Bool → Outcome PriorityOrderList
  unfolding sort_base_and_calculate_priority
  add_participant_in_list fuel s id speed is_contender =
      if any (is_participant id is_contender) s.base_speed
      then done s
      else let elem' : PriorityElem = record {
        id = id;
        speed = speed;
        is_contender = is_contender;
      } in
        let base = s.base_speed ++ elem' ∷ [] in
        let speed' =
          if ltb 0 s.current_turn then speed +ℤ (back_or no_participant base).speed else speed in
        sort_base_and_calculate_priority sort fuel (record s {
          base_speed = base;
          analyzed_list = s.analyzed_list ++ record elem' { speed = speed' } ∷ [];
          priority_list = [];
        })
        >>= λ s'. done (record s' { current_turn = s.current_turn })

  -- `getNext` calls itself once the list is filled; the fuel bounds these calls, and `calculation` is
  -- the fuel of each calculation.
  unfoldable pub get_next : ℕ → ℕ → PriorityOrderList → Outcome (PriorityElem × PriorityOrderList)
  unfolding sort_base_and_calculate_priority
  get_next zero calculation s = out_of_fuel
  get_next (suc fuel) calculation s = elim (is_empty s.base_speed) [
    | true ↦ done (no_participant, s)
    | false ↦ elim (unsnoc s.priority_list) [
      | some (rest, next) ↦ done (next, record s { current_prio = next; priority_list = rest })
      | none ↦
          sort_base_and_calculate_priority sort calculation s >>= λ s'. get_next fuel calculation s'
    ]
  ]
