-- ===== src/FightingPit.antt =====
-- One battle: services/arena/include/fightingPit/FightingPit.hh and
-- services/arena/src/fightingPit/FightingPit.cpp. The references of the layout are the contenders and
-- the teams of the pit itself; the script engine's own state stands in the pit's place.
mod Distinct
pub mod Start
pub mod Turns
mod Tests
use Prim.Native.String.{String}
use text.Mathlib.Text.{◌==◌ as str_eq}
use fy_s.Common.{
  ℕ, zero, suc, ◌+◌, ◌-◌, Bool, true, false, not, ◌&&◌, Option, some, List, [], ◌∷◌, ◌++◌,
  if◌then◌else◌, ltb, any, map, add_uint, uint_mod, length,
}
use fy_s.Common.Int.{ℤ, pos, negsuc}
use mathlib.Core.Option.{none}
use fy_s.CommonTypes.{PriorityElem}
use fy_s.HexagonSide.Sides.{
  Orientation, a_n, a_ne, a_se, a_s, a_sw, a_nw, b_n, b_ne, b_se, b_s, b_sw, b_nw, c_n, c_ne, c_se,
  c_s, c_sw, c_nw,
}
use fy_s.Priority.State.{Outcome, done, undefined, out_of_fuel, ◌>>=◌}
use fy_s.Contenders.{
  PitContenders, FightingContender, empty_pit, contender_on_side, get_contender_on_side,
}
use fy_s.Team.Member.{TeamMember, contender_target, add_pending_action}
use fy_s.Team.Party.{PartyTeam}
use fy_s.Team.Allies.{
  AllyPartyTeams, no_teams, add_party_team, ally_number_on_side, get_members_by_side,
  get_specific_team_member_by_id,
}
use fy_s.SideBattle.{
  SideBattle, new_side_battle, is_side_empty, add_participant_in_list, get_current_participant_turn,
}
use fy_s.SideBattle.Filling.{fill}
use fy_s.Scripting.{World, ScriptEngine, ScriptCache, load_and_register_action}
use fy_s.Actions.{update_members, execute_ally_action, execute_contender_action}

pub data Ending : Type 0 where
  on_hold not_finished contender_win ally_win : Ending

-- `no_level` is `NONE`.
pub data Level : Type 0 where
  easy medium hard no_level : Level

pub record AuthenticatedPlayer : Type 0 where
  pub name : String
  pub token : String

pub record FightingPit {ℓ} (S : Type ℓ) : Type ℓ where
  pub ending : Ending
  pub level_fighting_pit : Level
  pub time_interlude : ℕ
  pub world : World S
  pub creator_user_name : String
  pub arena_id : ℕ
  pub authenticated_players : List AuthenticatedPlayer
  pub side_battles : List SideBattle

abbrev pub creation_error : ℕ
creation_error = 0

-- In milliseconds.
abbrev pub retrieve_time_interlude_from_level_degree : Level → ℕ
retrieve_time_interlude_from_level_degree easy = 20000
retrieve_time_interlude_from_level_degree medium = 10000
retrieve_time_interlude_from_level_degree hard = 5000
retrieve_time_interlude_from_level_degree no_level = 0

-- The conversion of a `uint` to `int`.
abbrev pub to_int : ℕ → ℤ
to_int n = if ltb n (uint_mod - 2147483648) then pos n else negsuc (uint_mod - 1 - n)

-- The constructor, over the fresh state of the script engine and whatever `_arenaId` holds: it is not
-- initialised.
abbrev pub new_fighting_pit {ℓ} : {S : Type ℓ} → String → Level → S → ℕ → FightingPit S
new_fighting_pit creator level scripts arena_id = record {
  ending = on_hold;
  level_fighting_pit = level;
  time_interlude = retrieve_time_interlude_from_level_degree level;
  world = record { contenders = empty_pit; party_teams = no_teams; scripts = scripts };
  creator_user_name = creator;
  arena_id = arena_id;
  authenticated_players = [];
  side_battles = [];
}

-- `FightingPitLayout::activeCharactersOnSide`.
unfoldable pub active_characters_on_side : PitContenders → AllyPartyTeams → Orientation → ℕ
active_characters_on_side pc apt side =
    add_uint (contender_on_side pc side) (ally_number_on_side apt side)

-- The participants of a side, as the two loops of `initializePriorityListInSidesBattle` meet them.
unfoldable pub member_elem : TeamMember → PriorityElem
member_elem m = record { id = m.id; speed = to_int m.status.initial_speed; is_contender = false }

unfoldable pub contender_elems : ℕ → List FightingContender → List PriorityElem
contender_elems i [] = []
contender_elems i (c ∷ cs) =
    record { id = i; speed = to_int c.status.initial_speed; is_contender = true }
    ∷ contender_elems (suc i) cs

unfoldable pub participants_on_side :
    PitContenders → AllyPartyTeams → Orientation → List PriorityElem
unfolding member_elem contender_elems
participants_on_side pc apt side =
    map member_elem (get_members_by_side apt side)
    ++ contender_elems 0 (get_contender_on_side pc side)

abbrev pub side_order : List Orientation
side_order =
    a_n ∷ a_ne ∷ a_nw ∷ a_s ∷ a_se ∷ a_sw ∷ b_n ∷ b_ne ∷ b_nw ∷ b_s ∷ b_se ∷ b_sw ∷ c_n ∷ c_ne
    ∷ c_nw ∷ c_s ∷ c_se ∷ c_sw ∷ []

unfoldable pub is_player_participant {ℓ} : {S : Type ℓ} → FightingPit S → String → String → Bool
is_player_participant p name token =
    any (λ (player : AuthenticatedPlayer). str_eq player.name name && str_eq player.token token)
      p.authenticated_players

unfoldable pub add_authenticated_user {ℓ} :
    {S : Type ℓ} → FightingPit S → String → String → FightingPit S
add_authenticated_user p user_name user_token = record p {
  authenticated_players =
      p.authenticated_players ++ record { name = user_name; token = user_token } ∷ [];
}

-- Nobody calls it.
abbrev initialize_party_team {ℓ} : {S : Type ℓ} → AllyPartyTeams → FightingPit S → FightingPit S
initialize_party_team teams p = record p { world = record (p.world) { party_teams = teams } }

abbrev pub check_end_status_fighting_pit : Ending → Bool
check_end_status_fighting_pit not_finished = true
check_end_status_fighting_pit on_hold = false
check_end_status_fighting_pit ally_win = false
check_end_status_fighting_pit contender_win = false

-- The member that `getSpecificTeamMemberById` finds is shared with its team.
unfoldable pub forward_to : String → ℕ → List PartyTeam → List PartyTeam
forward_to user_name id_member [] = []
forward_to user_name id_member (t ∷ ts) =
    let rest = forward_to user_name id_member ts in
    if str_eq t.user_name user_name
    then record t {
      members =
          update_members (λ m. add_pending_action m "" (contender_target 1)) id_member t.members;
    }
      ∷ ts
    else t ∷ rest

unfoldable pub forward_message_to_team_member {ℓ} :
    {S : Type ℓ} → FightingPit S → String → ℕ → FightingPit S
forward_message_to_team_member p user_name id_member =
    let teams = p.world.party_teams in
    elim (get_specific_team_member_by_id teams user_name id_member) [
      | none ↦ p
      | some m ↦ record p {
        world = record p.world {
          party_teams = record teams {
            party_teams = forward_to user_name id_member teams.party_teams;
          };
        };
      }
    ]

-- `sort` is `std::sort` with a comparator. What `loadAndRegisterAction` returns is dropped.
unfoldable pub add_party_team_and_register_actions {ℓ} :
    {S : Type ℓ} {C : Type 0}
    → ScriptEngine S
    → ScriptCache C
    → ((SideBattle → SideBattle → Bool) → List SideBattle → List SideBattle)
    → PartyTeam
    → C
    → FightingPit S
    → C × FightingPit S
unfolding load_and_register_action
add_party_team_and_register_actions engine cache sort pt c p =
    let (ok, c', w) = load_and_register_action engine cache pt c p.world in
    let teams = add_party_team w.party_teams pt in
    (
      c',
      record p {
        world = record w { party_teams = teams };
        side_battles =
            sort
              (λ lhs rhs.
                ltb (active_characters_on_side w.contenders teams lhs.side)
                  (active_characters_on_side w.contenders teams rhs.side))
              p.side_battles;
      },
    )

-- An exception that nothing catches, or a null pointer, is the outcome `undefined`.
abbrev pub or_undefined {ℓ} : {A : Type ℓ} → Option A → Outcome A
or_undefined none = undefined
or_undefined (some a) = done a

module _ (sort : List PriorityElem → List PriorityElem) where
  -- The loop of `initializePriorityListInSidesBattle`.
  unfoldable pub initialize_each :
      ℕ → PitContenders → AllyPartyTeams → List SideBattle → Outcome (List SideBattle)
  initialize_each fuel pc apt [] = done []
  initialize_each fuel pc apt (sb ∷ sbs) =
      fill sort fuel (participants_on_side pc apt sb.side) sb >>= λ sb'.
      initialize_each fuel pc apt sbs >>= λ sbs'. done (sb' ∷ sbs')

  unfoldable pub initialize_side_battles {ℓ} :
      {S : Type ℓ} → ℕ → FightingPit S → Outcome (FightingPit S)
  unfolding initialize_each
  initialize_side_battles fuel p =
      initialize_each fuel p.world.contenders p.world.party_teams
        (p.side_battles ++ map new_side_battle side_order)
      >>= λ battles. done (record p { side_battles = battles })

  module _ {ℓ} {S : Type ℓ} (engine : ScriptEngine S) (fuel calculation now interlude : ℕ) where
    abbrev pub act : PriorityElem → World S → Outcome (World S)
    act participant w =
        if participant.is_contender
        then done (execute_contender_action engine participant w)
        else or_undefined (execute_ally_action engine participant w)

    -- The loop of `continueBattle`.
    unfoldable pub continue_sides : List SideBattle → World S → Outcome (List SideBattle × World S)
    unfolding get_current_participant_turn execute_contender_action execute_ally_action
    continue_sides [] w = done ([], w)
    continue_sides (b ∷ bs) w = elim (is_side_empty b) [
      | true ↦ continue_sides bs w >>= λ rest. done (b ∷ rest.0, rest.1)
      | false ↦ get_current_participant_turn sort fuel calculation now interlude b >>= λ turn.
          act turn.0 w >>= λ w'. continue_sides bs w' >>= λ rest. done (turn.1 ∷ rest.0, rest.1)
    ]

  unfoldable pub continue_battle {ℓ} :
      {S : Type ℓ} → ScriptEngine S → ℕ → ℕ → ℕ → FightingPit S → Outcome (FightingPit S)
  unfolding continue_sides
  continue_battle engine fuel calculation now p =
      if not (check_end_status_fighting_pit p.ending)
      then done p
      else continue_sides engine fuel calculation now p.time_interlude p.side_battles p.world
        >>= λ result. done (record p { side_battles = result.0; world = result.1 })
