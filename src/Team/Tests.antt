-- ===== src/Team/Tests.antt =====
-- Small teams for services/arena/src/fightingPit/team/AllyPartyTeams.cpp.
use fy_s.Common.{ℕ, ◌≤◌, ◌<◌, ◌+◌, ◌≡◌, refl, ◌⊎◌, some, List, [], ◌∷◌, arith, length, filter}
use mathlib.Core.Option.{none}
use mathlib.Core.List.{Memᴰ}
use fy_s.HexagonSide.Sides.{Orientation, a_n, a_s}
use fy_s.HexagonSide.Placed.{placed}
use fy_s.SizedQueue.{fresh}
use fy_s.Team.Member.{TeamMember}
use fy_s.Team.Party.{PartyTeam}
use fy_s.Team.Allies.{
  AllyPartyTeams, no_teams, number_members, add_party_team, get_members_by_side,
  ally_number_on_side, select_member_by_id,
}
use fy_s.Team.Ids.{all_members, IsNumbered, add_party_team-IsNumbered, select_member_by_id-exact}
use fy_s.Team.Select.{on_side, members_by_side}

abbrev pub fighter : ℕ → Orientation → TeamMember
fighter id side = record {
  user_name = "ada";
  name = "knight";
  side = placed side;
  id = id;
  status = record {
    life = record { current = 9; total = 9 };
    magic_point = record { current = 0; total = 0 };
    initial_speed = 5;
    alterations = [];
  };
  actions_doable = [];
  pending_actions = fresh [];
}

abbrev team_of : List TeamMember → PartyTeam
team_of ms = record { user_name = "ada"; members = ms; change_side_flags = [] }

abbrev pub two_teams : AllyPartyTeams
two_teams = record {
  party_teams = team_of (fighter 1 a_n ∷ fighter 2 a_s ∷ []) ∷ team_of (fighter 3 a_n ∷ []) ∷ [];
  current_team_member_id = 3;
}

numbered_test :
    add_party_team
      (add_party_team no_teams (team_of (fighter 0 a_n ∷ fighter 0 a_s ∷ [])))
      (team_of (fighter 0 a_n ∷ []))
    ≡ two_teams
unfolding add_party_team number_members
numbered_test = refl

add_party_team-IsNumbered_example :
    IsNumbered (add_party_team two_teams (team_of (fighter 0 a_n ∷ [])))
    × ((add_party_team two_teams (team_of (fighter 0 a_n ∷ []))).current_team_member_id ≡ 3 + 1)
add_party_team-IsNumbered_example =
    add_party_team-IsNumbered two_teams (team_of (fighter 0 a_n ∷ [])) (omega arith) refl

select_member_by_id-exact_example :
    (0 < 3
      → 3 ≤ 3
      → (m : TeamMember) × (select_member_by_id two_teams 3 ≡ some m)
        × (m.id ≡ 3)
        × Memᴰ m (all_members two_teams.party_teams))
    × ((◌≡◌ {A = ℕ} 3 0) ⊎ (3 < 3) → select_member_by_id two_teams 3 ≡ none)
select_member_by_id-exact_example = select_member_by_id-exact two_teams 3 refl (fighter 1 a_n, refl)

members_by_side_example :
    (get_members_by_side two_teams a_n ≡ filter (on_side a_n) (all_members two_teams.party_teams))
    × (ally_number_on_side two_teams a_n ≡ length (get_members_by_side two_teams a_n))
members_by_side_example = members_by_side two_teams a_n (fighter 1 a_n, refl) (omega arith)
