-- ===== src/Team/Party.antt =====
-- The team of one player: services/arena/include/fightingPit/team/PartyTeam.hh and
-- services/arena/src/fightingPit/team/PartyTeam.cpp.
use Prim.Native.String.{String}
use fy_s.Common.{ℕ, Bool, List, [], ◌∷◌, ◌++◌, filter, count}
use fy_s.HexagonSide.Sides.{Orientation, ◌==◌}
use fy_s.Team.Member.{TeamMember, get_hexagon_side_orient}

pub record PartyTeam : Type 0 where
  pub user_name : String
  pub members : List TeamMember
  pub change_side_flags : List Bool

-- `PartyTeam(std::string userName)`.
unfoldable pub new_party : String → PartyTeam
new_party name = record { user_name = name; members = []; change_side_flags = [] }

unfoldable pub get_team_member_on_side : PartyTeam → Orientation → List TeamMember
get_team_member_on_side t side = filter (λ m. get_hexagon_side_orient m == side) t.members

unfoldable pub add_team_member : PartyTeam → TeamMember → PartyTeam
add_team_member t m = record t { members = t.members ++ m ∷ [] }

unfoldable pub ally_number_on_side : PartyTeam → Orientation → ℕ
ally_number_on_side t side = count (λ ally. side == get_hexagon_side_orient ally) t.members
