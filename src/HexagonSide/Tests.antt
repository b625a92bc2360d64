-- ===== src/HexagonSide/Tests.antt =====
-- Moves of services/arena/src/fightingPit/HexagonSide.cpp at some sides.
use fy_s.Common.{◌<◌, ◌≡◌, refl, true, false, not, arith}
use fy_s.HexagonSide.Sides.{Orientation, a_n, a_ne, b_sw, beyond, code}
use fy_s.HexagonSide.Moves.{
  default_side, can_move, move, move_left, move_right, move_back, find_right, of_orientation,
}
use fy_s.HexagonSide.Placed.{IsValid, placed, moves-IsValid}
use fy_s.HexagonSide.Graph.{
  TurnsBack, CrossesBack, one_way, move_right-move_left, move_back-ambush, can_move_back,
}

constructed : of_orientation b_sw ≡ placed b_sw
unfolding of_orientation
constructed = refl

-- Nobody moves from `NONE`, though `findRight` computes a value that no enumerator names.
no_move_from_none :
    (find_right default_side ≡ beyond 0) × (move_right default_side ≡ (false, default_side))
unfolding move_right
no_move_from_none = (refl, refl)

a_ne-IsValid : IsValid (placed a_ne)
a_ne-IsValid = record { named = omega arith; home = λ p. refl }

moves-IsValid_example :
    ((dest : Orientation) → code dest < 19 → IsValid (move (placed a_ne) dest true).1)
    × ((dest : Orientation) → IsValid (move (placed a_ne) dest false).1)
    × IsValid (move_left (placed a_ne)).1
    × IsValid (move_right (placed a_ne)).1
    × IsValid (move_back (placed a_ne)).1
moves-IsValid_example = moves-IsValid (placed a_ne) a_ne-IsValid

move_right-move_left_example : TurnsBack (placed a_ne)
move_right-move_left_example = move_right-move_left (placed a_ne) a_ne-IsValid (omega arith)

move_back-ambush_example : CrossesBack (placed a_ne)
move_back-ambush_example = move_back-ambush (placed a_ne) a_ne-IsValid (omega arith)

can_move_back_example : can_move (placed a_n) b_sw ≡ not (one_way b_sw a_n)
unfolding can_move
can_move_back_example = can_move_back b_sw a_n (omega arith) (omega arith) refl
