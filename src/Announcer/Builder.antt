-- ===== src/Announcer/Builder.antt =====
-- The settings of the builder of services/arena/include/fightingPit/FightingPitAnnouncer.hh.
use Prim.Native.String.{String}
use fy_s.Common.{
  ℕ, Bool, true, false, not, ◌&&◌, Option, some, List, [], get_elem?, set, find, if◌then◌else◌,
  ◌==◌ as nat_eq,
}
use mathlib.Core.Option.{none}
use fy_s.HexagonSide.Sides.{Orientation, ◌==◌}
use fy_s.Team.Member.{add_doable_action}
use fy_s.Team.Party.{PartyTeam}
use fy_s.SideBattle.{SideBattle}
use fy_s.FightingPit.{Level, easy, medium, hard, no_level}

pub data EncounterType : Type 0 where
  random_encounter scripted_encounter : EncounterType

pub record FightingPitAnnouncer : Type 0 where
  pub id_encounter : ℕ
  pub difficulty : Level
  pub encounter_type : EncounterType
  pub is_ambush_enforced : Option Bool
  pub loaded_script : List String
  pub creator_user_name : String
  pub creator_user_token : String
  pub creator_party_team : Option PartyTeam

abbrev pub new_announcer : FightingPitAnnouncer
new_announcer = record {
  id_encounter = 0;
  difficulty = medium;
  encounter_type = random_encounter;
  is_ambush_enforced = none;
  loaded_script = [];
  creator_user_name = "";
  creator_user_token = "";
  creator_party_team = none;
}

abbrev pub is_random_encounter : FightingPitAnnouncer → Bool
is_random_encounter a = elim a.encounter_type [
  | random_encounter ↦ true
  | scripted_encounter ↦ false
]

abbrev pub is_scripted_encounter : FightingPitAnnouncer → Bool
is_scripted_encounter a = not (is_random_encounter a)

unfoldable pub set_encounter_type : EncounterType → FightingPitAnnouncer → FightingPitAnnouncer
set_encounter_type random_encounter a = record a {
  id_encounter = 0;
  encounter_type = random_encounter;
}
set_encounter_type scripted_encounter a = record a { encounter_type = scripted_encounter }

unfoldable pub set_encounter_id : ℕ → FightingPitAnnouncer → FightingPitAnnouncer
set_encounter_id id a =
    if is_random_encounter a && nat_eq id 0
    then record a { encounter_type = scripted_encounter; id_encounter = id }
    else record a { id_encounter = id }

abbrev pub set_creator_user_name : String → FightingPitAnnouncer → FightingPitAnnouncer
set_creator_user_name name a = record a { creator_user_name = name }

abbrev pub set_creator_user_token : String → FightingPitAnnouncer → FightingPitAnnouncer
set_creator_user_token token a = record a { creator_user_token = token }

abbrev pub enforce_ambush : Bool → FightingPitAnnouncer → FightingPitAnnouncer
enforce_ambush enforced a = record a { is_ambush_enforced = some enforced }

abbrev pub set_difficulty : Level → FightingPitAnnouncer → FightingPitAnnouncer
set_difficulty level a = record a { difficulty = level }

abbrev pub set_creator_team_party : PartyTeam → FightingPitAnnouncer → FightingPitAnnouncer
set_creator_team_party pt a = record a { creator_party_team = some pt }

-- `none` is the `front` of an empty vector, which C++ leaves undefined.
unfoldable pub get_side_battle_for_side : List SideBattle → Orientation → Option SideBattle
get_side_battle_for_side battles side = elim (find (λ (sb : SideBattle). sb.side == side) battles) [
  | none ↦ get_elem? battles 0
  | some sb ↦ some sb
]

-- `none` is an index out of range, which C++ leaves undefined.
unfoldable pub add_action_to_one_member : PartyTeam → ℕ → String → ℕ → Option PartyTeam
unfolding add_doable_action
add_action_to_one_member team index action_name level = elim (get_elem? team.members index) [
  | none ↦ none
  | some m ↦
      some
        (record team { members = set team.members index (add_doable_action m action_name level) })
]

-- The conversion of the level to an index.
abbrev pub level_index : Level → ℕ
level_index easy = 0
level_index medium = 1
level_index hard = 2
level_index no_level = 3
