-- ===== src/Database.antt =====
-- The teams of the players, as services/arena/src/network/DBConnector.cpp has them for now, and the
-- constructor of services/arena/include/fightingPit/team/TeamMember.hh.
use Prim.Native.String.{String}
use fy_s.Common.{ℕ, [], replicate}
use mathlib.Core.Option.{none}
use fy_s.CommonTypes.{Status}
use fy_s.HexagonSide.Sides.{b_s}
use fy_s.HexagonSide.Moves.{default_side}
use fy_s.SizedQueue.{fresh}
use fy_s.Layout.{set_ally_move_initiate_position}
use fy_s.Team.Member.{TeamMember, PendingAction, size_pending}
use fy_s.Team.Party.{PartyTeam, new_party, add_team_member}

abbrev pub status_of : ℕ → ℕ → ℕ → Status
status_of life magic speed = record {
  life = record { current = life; total = life };
  magic_point = record { current = magic; total = magic };
  initial_speed = speed;
  alterations = [];
}

abbrev pub no_action : PendingAction
no_action = record { id_action = 0; target = none }

-- The fields that the constructor leaves alone have their defaults, and the id is 0 until a pit
-- numbers its members.
abbrev pub new_team_member : String → String → TeamMember
new_team_member user_name name = record {
  user_name = user_name;
  name = name;
  side = default_side;
  id = 0;
  status = status_of 0 0 0;
  actions_doable = [];
  pending_actions = fresh (replicate size_pending no_action);
}

abbrev pub hard_coded_member : String → String → Status → TeamMember
hard_coded_member user name status =
    record (set_ally_move_initiate_position (new_team_member user name) b_s) { status = status }

-- The same four characters for every player.
unfoldable pub retrieve_party_team : String → PartyTeam
unfolding new_party add_team_member
retrieve_party_team user =
    let tm1 = hard_coded_member user "Elvo" (status_of 100 20 3) in
    let tm2 = hard_coded_member user "Mirael" (status_of 200 0 5) in
    let tm3 = hard_coded_member user "Fyston" (status_of 550 10 10) in
    let tm4 = hard_coded_member user "Simon" (status_of 140 10 20) in
    add_team_member
      (add_team_member (add_team_member (add_team_member (new_party user) tm1) tm2) tm3) tm4
