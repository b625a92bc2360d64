-- ===== src/Priority/Turns.antt =====
-- The calculation of a turn in services/arena/src/fightingPit/PriorityOrderList.cpp.
use fy_s.Common.{
  ℕ, zero, suc, true, false, not, some, List, [], ◌∷◌, ◌++◌, if◌then◌else◌, find, modify_first,
  add_uint, ◌==◌,
}
use fy_s.Common.Int.{ℤ, pos, ◌+ℤ◌, ◌-ℤ◌, eqb_ℤ}
use mathlib.Core.Option.{none}
use mathlib.Core.List.{reverse}
use fy_s.CommonTypes.{PriorityElem}
use fy_s.Priority.State.{PriorityOrderList, Outcome, done, undefined, out_of_fuel, ◌>>=◌, unsnoc}
use fy_s.Priority.Sort.{custom_sort}

-- `it->speed ? it->speed : 1`.
abbrev pub speed_or_one : ℤ → ℤ
speed_or_one speed = if eqb_ℤ speed (pos 0) then pos 1 else speed

-- The loop of `getComputedSpeed`. `next_in_line` is the id of the element before the current one; for
-- the first one it is that of `_baseSpeed.back()`.
unfoldable pub computed_from : List PriorityElem → ℕ → ℕ → List PriorityElem → ℤ
computed_from analyzed id next_in_line [] = pos 1
computed_from analyzed id next_in_line (b ∷ bs) =
    let rest = computed_from analyzed id b.id bs in
    if b.id == id
    then elim (find (λ (e : PriorityElem). e.id == next_in_line) analyzed) [
      | none ↦ rest
      | some it ↦ speed_or_one it.speed
    ]
    else rest

-- The last element, where there is one.
abbrev pub back_or : PriorityElem → List PriorityElem → PriorityElem
back_or d [] = d
back_or d (x ∷ xs) = back_or x xs

unfoldable pub get_computed_speed : List PriorityElem → List PriorityElem → PriorityElem → ℤ
unfolding computed_from
get_computed_speed [] analyzed e = pos 1
get_computed_speed (b ∷ bs) analyzed e = computed_from analyzed e.id (back_or b bs).id (b ∷ bs)

-- The loop of `endTurnRoutine`; `fastest` is `getFastestBaseSpeed()`.
unfoldable pub raise_speeds : ℤ → List PriorityElem → List PriorityElem → List PriorityElem
raise_speeds fastest [] analyzed = analyzed
raise_speeds fastest (b ∷ bs) analyzed = raise_speeds fastest bs (
    modify_first (λ (e : PriorityElem). e.id == b.id)
      (λ (e : PriorityElem). record e { speed = e.speed +ℤ (b.speed +ℤ fastest) }) analyzed)

-- The fastest element, slowed down if it is not alone.
abbrev pub slow_down : List PriorityElem → List PriorityElem → PriorityElem → PriorityElem
slow_down base [] fastest = fastest
slow_down base (e ∷ es) fastest = record fastest {
  speed = fastest.speed -ℤ get_computed_speed base ((e ∷ es) ++ fastest ∷ []) fastest;
}

module _ (sort : List PriorityElem → List PriorityElem) where
  -- With at most one participant only the turn advances.
  unfoldable pub end_turn_routine : PriorityOrderList → Outcome PriorityOrderList
  unfolding raise_speeds
  end_turn_routine s =
      let s' = record s { current_turn = add_uint s.current_turn 1 } in
      elim s.base_speed [
        | [] ↦ done s'
        | b ∷ bs ↦ elim bs [
          | [] ↦ done s'
          | b' ∷ bs' ↦
              custom_sort sort (b ∷ b' ∷ bs')
                (raise_speeds (back_or b' bs').speed (b ∷ b' ∷ bs') s.analyzed_list)
              >>= λ analyzed.
                  done (record s' {
                    analyzed_list = analyzed;
                    priority_list = reverse s.priority_list;
                  })
        ]
      ]

  -- `if (isPlayerSlowest(fastest.id)) endTurnRoutine();`, where `isPlayerSlowest` reads
  -- `_baseSpeed.front()`.
  unfoldable pub end_if_slowest :
      List PriorityElem → ℕ → PriorityOrderList → Outcome PriorityOrderList
  end_if_slowest [] id s = undefined
  end_if_slowest (slowest ∷ rest) id s = if slowest.id == id then end_turn_routine s else done s

  -- A round of `calculatePriority` behind its sort, on the last element and those before it.
  unfoldable pub play_fastest :
      PriorityOrderList → List PriorityElem → PriorityElem → Outcome PriorityOrderList
  unfolding end_if_slowest
  play_fastest s others back =
      let fastest = slow_down s.base_speed others back in
      end_if_slowest s.base_speed fastest.id (record s {
        analyzed_list = others ++ fastest ∷ [];
        priority_list = s.priority_list ++ fastest ∷ [];
      })

  -- A round of `calculatePriority` behind its guard.
  unfoldable pub next_priority : PriorityOrderList → Outcome PriorityOrderList
  unfolding play_fastest
  next_priority s = custom_sort sort s.base_speed s.analyzed_list >>= λ analyzed.
      elim (unsnoc analyzed) [ none ↦ undefined | some (others, back) ↦ play_fastest s others back ]

  -- `calculatePriority`, whose recursion ends when the turn has advanced.
  unfoldable pub calculate_priority : ℕ → ℕ → PriorityOrderList → Outcome PriorityOrderList
  unfolding next_priority
  calculate_priority zero turn s = if not (s.current_turn == turn) then done s else out_of_fuel
  calculate_priority (suc fuel) turn s = elim (s.current_turn == turn) [
    | false ↦ done s
    | true ↦ next_priority s >>= λ s'. calculate_priority fuel turn s'
  ]

  unfoldable pub sort_base_and_calculate_priority :
      ℕ → PriorityOrderList → Outcome PriorityOrderList
  unfolding calculate_priority
  sort_base_and_calculate_priority fuel s = elim s.base_speed [
    | [] ↦ done s
    | b ∷ bs ↦
        let base = sort (b ∷ bs) in
        if s.current_turn == 0
        then done (record s {
          base_speed = base;
          analyzed_list = base;
          priority_list = base;
          current_turn = add_uint s.current_turn 1;
        })
        else calculate_priority fuel s.current_turn (record s { base_speed = base })
  ]
