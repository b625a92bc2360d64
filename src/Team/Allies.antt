-- ===== src/Team/Allies.antt =====
-- The teams of all players of a pit: services/arena/include/fightingPit/team/AllyPartyTeams.hh and
-- services/arena/src/fightingPit/team/AllyPartyTeams.cpp.
use Prim.Native.String.{String}
use text.Mathlib.Text.{◌==◌ as str_eq}
use fy_s.Common.{
  ℕ, ◌-◌, Bool, not, ◌&&◌, Option, some, List, [], ◌∷◌, ◌++◌, length, get_elem?, find, or_else,
  add_uint, ◌==◌ as nat_eq,
}
use mathlib.Core.Option.{none}
use fy_s.CommonTypes.{is_dead}
use fy_s.HexagonSide.Sides.{Orientation, ◌==◌}
use fy_s.Algorithm.{find_most_suitable_from}
use fy_s.Team.Member.{TeamMember, set_id, get_hexagon_side_orient}
use fy_s.Team.Party.{
  PartyTeam, get_team_member_on_side, ally_number_on_side as party_number_on_side,
}

pub record AllyPartyTeams : Type 0 where
  pub party_teams : List PartyTeam
  pub current_team_member_id : ℕ

abbrev pub no_teams : AllyPartyTeams
no_teams = record { party_teams = []; current_team_member_id = 0 }

-- The loop of `addPartyTeam`: the last id given, and the members with their ids.
unfoldable pub number_members : ℕ → List TeamMember → ℕ × List TeamMember
unfolding set_id
number_members current [] = (current, [])
number_members current (m ∷ ms) =
    let next = add_uint current 1 in
    let (last, ms') = number_members next ms in (last, set_id m next ∷ ms')

unfoldable pub add_party_team : AllyPartyTeams → PartyTeam → AllyPartyTeams
add_party_team apt team =
    let (last, members') = number_members apt.current_team_member_id team.members in
    record {
      party_teams = apt.party_teams ++ record team { members = members' } ∷ [];
      current_team_member_id = last;
    }

abbrev pub Comparator : Type 0
Comparator = TeamMember → TeamMember → Bool

-- The loop over the teams. An iterator is modelled by the member that it points at, so it differs from
-- the `end()` of every team.
unfoldable pub suitable_in : List PartyTeam → Comparator → TeamMember → TeamMember
suitable_in [] comp suitable = suitable
suitable_in (t ∷ ts) comp suitable =
    suitable_in ts comp (find_most_suitable_from t.members comp suitable)

-- The guard of several methods, and `begin()` of the first team behind it.
abbrev pub first_member : List PartyTeam → Option TeamMember
first_member [] = none
first_member (t ∷ ts) = get_elem? t.members 0

unfoldable pub select_suitable_member : AllyPartyTeams → Comparator → Option TeamMember
select_suitable_member apt comp = elim (first_member apt.party_teams) [
  | none ↦ none
  | some m ↦ some (suitable_in apt.party_teams comp m)
]

unfoldable pub select_suitable_member_alive : AllyPartyTeams → Comparator → Option TeamMember
unfolding select_suitable_member
select_suitable_member_alive apt comp =
    select_suitable_member apt
      (λ current next. not (is_dead current.status.life) && comp current next)

unfoldable pub select_suitable_member_on_side :
    AllyPartyTeams → Orientation → Comparator → Option TeamMember
unfolding select_suitable_member
select_suitable_member_on_side apt side comp =
    select_suitable_member apt
      (λ current next. get_hexagon_side_orient current == side && comp current next)

unfoldable pub select_suitable_member_on_side_alive :
    AllyPartyTeams → Orientation → Comparator → Option TeamMember
unfolding select_suitable_member
select_suitable_member_on_side_alive apt side comp = select_suitable_member apt (λ current next.
    not (is_dead current.status.life)
    && get_hexagon_side_orient current == side
    && comp current next)

-- `getMembersBySide`, the loop and the whole.
unfoldable pub members_on_side : List PartyTeam → Orientation → List TeamMember
members_on_side [] side = []
members_on_side (t ∷ ts) side = get_team_member_on_side t side ++ members_on_side ts side

unfoldable pub get_members_by_side : AllyPartyTeams → Orientation → List TeamMember
unfolding members_on_side
get_members_by_side apt side = elim (first_member apt.party_teams) [
  | none ↦ []
  | some m ↦ members_on_side apt.party_teams side
]

-- `generate` is `RandomGenerator::generateInRange`; `none` is the exception of `at`.
unfoldable pub select_random_member_on_side_alive :
    (ℕ → ℕ → ℕ) → AllyPartyTeams → Orientation → Option TeamMember
unfolding get_members_by_side
select_random_member_on_side_alive generate apt side =
    let on_side = get_members_by_side apt side in
    get_elem? on_side (generate 1 (length on_side) - 1)

-- `getSpecificTeamMemberById`.
unfoldable pub get_specific_team_member_by_id : AllyPartyTeams → String → ℕ → Option TeamMember
get_specific_team_member_by_id apt user_name id_member =
    elim (find (λ (t : PartyTeam). str_eq t.user_name user_name) apt.party_teams) [
      | none ↦ none
      | some t ↦ find (λ (m : TeamMember). nat_eq m.id id_member) t.members
    ]

-- The loop of `selectMemberById`, and the whole.
unfoldable pub member_in : List PartyTeam → ℕ → Option TeamMember
member_in [] id_member = none
member_in (t ∷ ts) id_member =
    or_else (find (λ (m : TeamMember). nat_eq id_member m.id) t.members) (member_in ts id_member)

unfoldable pub select_member_by_id : AllyPartyTeams → ℕ → Option TeamMember
unfolding member_in
select_member_by_id apt id_member = elim (first_member apt.party_teams) [
  | none ↦ none
  | some m ↦ member_in apt.party_teams id_member
]

-- `allyNumberOnSide`: an accumulation over `unsigned`.
unfoldable pub count_allies : ℕ → List PartyTeam → Orientation → ℕ
count_allies n [] side = n
count_allies n (t ∷ ts) side = count_allies (add_uint n (party_number_on_side t side)) ts side

unfoldable pub ally_number_on_side : AllyPartyTeams → Orientation → ℕ
unfolding count_allies
ally_number_on_side apt side = count_allies 0 apt.party_teams side

-- `none` is the exception for a player with no team.
unfoldable pub get_party_team_of_player : AllyPartyTeams → String → Option PartyTeam
get_party_team_of_player apt user_name =
    find (λ (t : PartyTeam). str_eq user_name t.user_name) apt.party_teams
