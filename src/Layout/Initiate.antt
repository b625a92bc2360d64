-- ===== src/Layout/Initiate.antt =====
-- The initial positions of services/arena/src/fightingPit/FightingPitLayout.cpp.
use fy_s.Common.{◌≡◌, refl, true, false, arith}
use fy_s.HexagonSide.Sides.{Orientation, ◌==◌}
use fy_s.HexagonSide.Moves.{default_side, move, change_side}
use fy_s.HexagonSide.Placed.{IsPlaced, placed}
use fy_s.Contenders.{FightingContender}
use fy_s.Team.Member.{TeamMember}
use fy_s.Layout.{set_contender_initiate_position, set_ally_move_initiate_position}

forced_default : (o : Orientation) → IsPlaced o → (move default_side o true).1 ≡ placed o
unfolding move change_side
forced_default Orientation.none h = absurd (omega arith)
forced_default (Orientation.beyond n) h = absurd (omega arith)
forced_default o h = refl

-- A contender, or a member, with no position yet is put on the given side of the pit, on the hexagon of
-- that side; every attempt after that leaves the first position as it is.
pub initiate_once :
    (c : FightingContender) (m : TeamMember) (o later : Orientation)
    → IsPlaced o
    → c.side ≡ default_side
    → m.side ≡ default_side
    → let c' = set_contender_initiate_position c o in
      let m' = set_ally_move_initiate_position m o in
      (c'.side ≡ placed o)
      × (m'.side ≡ placed o)
      × (set_contender_initiate_position c' later ≡ c')
      × (set_ally_move_initiate_position m' later ≡ m')
unfolding set_contender_initiate_position set_ally_move_initiate_position
initiate_once c m o later h fresh_c fresh_m =
    let off : (o == Orientation.none) ≡ false = ground (arith, h) in
    rw (fresh_c, fresh_m, forced_default o h, off) (refl, refl, refl, refl)
