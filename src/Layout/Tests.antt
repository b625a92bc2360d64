-- ===== src/Layout/Tests.antt =====
-- Moves of services/arena/src/fightingPit/FightingPitLayout.cpp at some sides.
use fy_s.Common.{◌≤◌, ◌≡◌, refl, false, some, List, [], ◌∷◌, arith, length}
use fy_s.CommonTypes.{MoveDirection, back, right}
use fy_s.HexagonSide.Sides.{a_n, b_nw, c_s}
use fy_s.Contenders.{FightingContender}
use fy_s.Contenders.Tests.{monster}
use fy_s.Team.Member.{TeamMember}
use fy_s.Team.Tests.{fighter}
use fy_s.HexagonSide.Moves.{default_side, move_right, move_back}
use fy_s.HexagonSide.Placed.{IsValid, placed}
use fy_s.Layout.{move}
use fy_s.Layout.Routes.{walk, walk_anywhere}

a_n-IsValid : IsValid (placed a_n)
a_n-IsValid = record { named = omega arith; home = λ p. refl }

walk_test : walk (right ∷ back ∷ right ∷ []) (placed a_n) ≡ some (placed b_nw)
unfolding walk move move_right move_back
walk_test = refl

move_back_refused : move (placed a_n) back ≡ (false, placed a_n)
unfolding move move_back
move_back_refused = refl

walk_anywhere_example :
    (ds : List MoveDirection) × (length ds ≤ 7) × (walk ds (placed a_n) ≡ some (placed c_s))
walk_anywhere_example = walk_anywhere (placed a_n) c_s a_n-IsValid (omega arith) (omega arith)

abbrev newcomer : FightingContender
newcomer = record (monster 0 9 a_n) { side = default_side }

abbrev recruit : TeamMember
recruit = record (fighter 1 a_n) { side = default_side }
