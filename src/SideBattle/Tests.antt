-- ===== src/SideBattle/Tests.antt =====
-- A battle of services/arena/src/fightingPit/SideBattle.cpp between three.
use fy_s.Common.{◌+◌, ◌≡◌, refl, List, [], ◌∷◌, ◌++◌, arith, map, replicate}
use mathlib.Core.List.{reverse}
use fy_s.CommonTypes.{PriorityElem}
use fy_s.HexagonSide.Sides.{a_n}
use fy_s.Priority.State.{no_participant, done}
use fy_s.Priority.Order.{IsSorted, SameElems}
use fy_s.Priority.Tests.{isort, isort-SortLaws, who, three}
use fy_s.SideBattle.{SideBattle, new_side_battle}
use fy_s.SideBattle.Filling.{fill}
use fy_s.SideBattle.Clock.{Visit, timetable, served, polls, side_battle_turns}

-- The first turn is polled three times, the second one late.
abbrev visits : List Visit
visits = (0, 400 ∷ 900 ∷ []) ∷ (250, []) ∷ (0, 10 ∷ []) ∷ []

timetable_test : timetable 1000 6000 visits ≡ 6000 ∷ 6400 ∷ 6900 ∷ 7250 ∷ 8250 ∷ 8260 ∷ []
timetable_test = refl

side_battle_turns_example :
    (b : SideBattle) × (ys : List PriorityElem) × (fill isort 0 three (new_side_battle a_n)
      ≡ done b)
    × (polls isort 0 0 1000
          (5000 ∷ map (λ o. 5000 + o) (300 ∷ []) ++ timetable 1000 (5000 + 1000) visits)
          b
        ≡ done (no_participant ∷ replicate 1 no_participant ++ served visits ys))
    × IsSorted (reverse ys)
    × SameElems ys three
side_battle_turns_example =
    side_battle_turns isort 0 0 0 1000 5000 a_n (who 1 5) (who 2 9 ∷ who 3 7 ∷ []) (300 ∷ []) visits
      isort-SortLaws (refl, (refl, (refl, tt))) (omega arith) (omega arith, tt)
      ((omega arith, (omega arith, tt)), (tt, ((omega arith, tt), tt))) (omega arith)
