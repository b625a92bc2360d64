-- ===== src/Team/Member.antt =====
-- A character of a player: services/arena/include/fightingPit/team/TeamMember.hh and
-- services/arena/src/fightingPit/team/TeamMember.cpp.
use Prim.Native.String.{String}
use text.Mathlib.Text.{◌==◌ as str_eq}
use fy_s.Common.{ℕ, Option, some, List, [], ◌∷◌, ◌++◌, find_idx}
use fy_s.CommonTypes.{Status}
use fy_s.HexagonSide.Sides.{Orientation}
use fy_s.HexagonSide.Moves.{HexagonSide}
use fy_s.SizedQueue.{SizedQueue, push}

-- The alternatives of the variant.
pub data TargetType : Type 0 where
  contender_target : ℕ → TargetType
  contenders_targets : List ℕ → TargetType
  ally_target : ℕ → TargetType
  allies_targets : List ℕ → TargetType
  side_target : Orientation → TargetType

pub record PendingAction : Type 0 where
  pub id_action : ℕ
  pub target : Option TargetType

-- An action that a member can do, with its level.
abbrev pub Doable : Type 0
Doable = String × ℕ

pub record TeamMember : Type 0 where
  pub user_name : String
  pub name : String
  pub side : HexagonSide
  pub id : ℕ
  pub status : Status
  pub actions_doable : List Doable
  pub pending_actions : SizedQueue PendingAction

-- The capacity of `_pendingActions`, the default of the template.
abbrev pub size_pending : ℕ
size_pending = 100

unfoldable pub set_id : TeamMember → ℕ → TeamMember
set_id m id = record m { id = id }

unfoldable pub add_doable_action : TeamMember → String → ℕ → TeamMember
add_doable_action m doable level = record m {
  actions_doable = m.actions_doable ++ (doable, level) ∷ [];
}

abbrev pub get_hexagon_side_orient : TeamMember → Orientation
get_hexagon_side_orient m = m.side.side

-- An unknown action has the number of actions for its index. What `push` returns is dropped.
unfoldable pub add_pending_action : TeamMember → String → TargetType → TeamMember
add_pending_action m action_name target =
    let index = find_idx (λ action. str_eq action_name action.0) m.actions_doable in
    record m {
      pending_actions =
          (push size_pending m.pending_actions
            (record { id_action = index; target = some target })).1;
    }
