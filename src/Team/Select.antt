-- ===== src/Team/Select.antt =====
-- Who is found on a side, and what the methods of
-- services/arena/src/fightingPit/team/AllyPartyTeams.cpp return when the first team is empty.
use fy_s.Common.{
  ℕ, ◌+◌, ◌<◌, ◌≡◌, refl, sym, ap, ◌∙◌, Bool, List, [], ◌∷◌, ◌++◌, arith, length, filter, count,
  length-append, filter-append, uint_mod, add_uint, ◌==◌ as nat_eq,
}
use mathlib.Core.Option.{none}
use fy_s.HexagonSide.Sides.{Orientation, ◌==◌}
use fy_s.Team.Member.{TeamMember, get_hexagon_side_orient}
use fy_s.Team.Party.{
  PartyTeam, get_team_member_on_side, ally_number_on_side as party_number_on_side,
}
use fy_s.Team.Allies.{
  AllyPartyTeams, Comparator, members_on_side, get_members_by_side, count_allies,
  ally_number_on_side, select_suitable_member, select_member_by_id,
  select_random_member_on_side_alive,
}
use fy_s.Team.Ids.{all_members, StartsFull}

code_sym : (a b : ℕ) → nat_eq a b ≡ nat_eq b a
code_sym a b = ground arith

count_sym :
    (side : Orientation) (ms : List TeamMember)
    → count (λ ally. side == get_hexagon_side_orient ally) ms
      ≡ length (filter (λ m. get_hexagon_side_orient m == side) ms)
count_sym side [] = refl
count_sym side (m ∷ ms) = ground (arith, count_sym side ms)

count_allies-length :
    (n : ℕ) (ts : List PartyTeam) (side : Orientation)
    → n + length (members_on_side ts side) < uint_mod
    → count_allies n ts side ≡ n + length (members_on_side ts side)
unfolding count_allies members_on_side party_number_on_side get_team_member_on_side
count_allies-length n [] side lt = omega arith
count_allies-length n (t ∷ ts) side lt =
    let here : party_number_on_side t side ≡ length (get_team_member_on_side t side) =
      count_sym side t.members in
    let both = length-append (get_team_member_on_side t side) (members_on_side ts side) in
    let sum : add_uint n (party_number_on_side t side)
        ≡ n + length (get_team_member_on_side t side) =
      omega arith in
    rw sum (
      omega (
        arith,
        count_allies-length (n + length (get_team_member_on_side t side)) ts side (omega arith),
      ))

-- Who stands on a side.
abbrev pub on_side : Orientation → TeamMember → Bool
on_side side m = get_hexagon_side_orient m == side

pub members_on_side-filter :
    (ts : List PartyTeam) (side : Orientation)
    → members_on_side ts side ≡ filter (on_side side) (all_members ts)
unfolding members_on_side get_team_member_on_side
members_on_side-filter [] side = refl
members_on_side-filter (t ∷ ts) side =
    ap (λ l. filter (on_side side) t.members ++ l) (members_on_side-filter ts side)
    ∙ sym (filter-append (on_side side) t.members (all_members ts))

-- Where the first team has a member and fewer than 2^32 members stand on the side, `getMembersBySide`
-- returns the members of all teams that stand on the side, in order, and `allyNumberOnSide` is their
-- number.
pub members_by_side :
    (apt : AllyPartyTeams) (side : Orientation)
    → StartsFull apt
    → length (filter (on_side side) (all_members apt.party_teams)) < uint_mod
    → (get_members_by_side apt side ≡ filter (on_side side) (all_members apt.party_teams))
      × (ally_number_on_side apt side ≡ length (get_members_by_side apt side))
unfolding ally_number_on_side get_members_by_side
members_by_side apt side (m, full) lt =
    let here = members_on_side-filter apt.party_teams side in
    rw (full, get_members_by_side)
      (here, omega (arith, count_allies-length 0 apt.party_teams side (rw here (omega arith))))

-- A first team with no member hides all other teams: nobody is chosen, found by a number or listed on a
-- side, and the random choice fails, whoever is in the other teams.
empty_first_team :
    (t : PartyTeam) (ts : List PartyTeam) (n i : ℕ) (side : Orientation) (comp : Comparator)
    (generate : ℕ → ℕ → ℕ)
    → t.members ≡ []
    → let apt : AllyPartyTeams = record { party_teams = t ∷ ts; current_team_member_id = n } in
      (select_suitable_member apt comp ≡ none)
      × (select_member_by_id apt i ≡ none)
      × (get_members_by_side apt side ≡ [])
      × (select_random_member_on_side_alive generate apt side ≡ none)
unfolding select_suitable_member select_member_by_id get_members_by_side
    select_random_member_on_side_alive
empty_first_team t ts n i side comp generate e = rw e (refl, refl, refl, refl)
