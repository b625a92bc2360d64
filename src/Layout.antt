-- ===== src/Layout.antt =====
-- The moves of characters over the pit:
-- services/arena/include/fightingPit/FightingPitLayout.hh and
-- services/arena/src/fightingPit/FightingPitLayout.cpp.
pub mod Initiate
pub mod Routes
mod Tests
use fy_s.Common.{Bool, true, false, not, if◌then◌else◌}
use fy_s.CommonTypes.{MoveDirection, back, right, left}
use fy_s.HexagonSide.Sides.{Orientation, ◌==◌}
use fy_s.HexagonSide.Moves
use fy_s.Contenders.{FightingContender}
use fy_s.Team.Member.{TeamMember}
use fy_s.HexagonSide.Moves.{HexagonSide, move_left, move_right, move_back}

-- `FightingPitLayout::move`. The messages that it logs are left out.
unfoldable pub move : HexagonSide → MoveDirection → Bool × HexagonSide
move s right = let (done, s') = move_right s in if not done then (false, s') else (true, s')
move s left = let (done, s') = move_left s in if not done then (false, s') else (true, s')
move s back = let (done, s') = move_back s in if not done then (false, s') else (true, s')

-- `setContenderInitiatePosition` and `setAllyMoveInitiatePosition`.
unfoldable pub set_contender_initiate_position : FightingContender → Orientation → FightingContender
set_contender_initiate_position contender o =
    if not (contender.side.side == Orientation.none)
    then contender
    else record contender { side = (Moves.move contender.side o true).1 }

unfoldable pub set_ally_move_initiate_position : TeamMember → Orientation → TeamMember
set_ally_move_initiate_position member o =
    if not (member.side.side == Orientation.none)
    then member
    else record member { side = (Moves.move member.side o true).1 }
