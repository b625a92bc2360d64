-- ===== src/Arena/Messages.antt =====
-- What the arena server of services/arena/src/ArenaServerService.cpp is told and keeps, and who it
-- awaits.
use Prim.Native.String.{String}
use text.Mathlib.Text.{◌==◌ as str_eq}
use fy_s.Common.{ℕ, Bool, true, false, not, ◌&&◌, Option, some, List, filter, if◌then◌else◌, ◌==◌}
use mathlib.Core.Option.{none}
use fy_s.CommonTypes.{PriorityElem}
use fy_s.Encounters.{EncounterContext, at_zone}
use fy_s.SideBattle.{SideBattle}
use fy_s.Scripting.{ScriptEngine, ScriptCache}
use fy_s.Database.{retrieve_party_team}
use fy_s.FightingPit.{Level, easy, medium, hard}
use fy_s.Announcer.{
  FightingPitAnnouncer, Generator, new_announcer, set_difficulty, set_encounter_id, enforce_ambush,
  set_creator_user_name, set_creator_user_token, set_creator_team_party,
}
use fy_s.Worker.{WorkerService}

-- The tables of the FlatBuffers messages that the server reads and writes. `other_level` is a number
-- without an enumerator.
pub data FbLevel : Type 0 where
  fb_easy fb_medium fb_hard other_level : FbLevel

pub record FightingPitEncounter : Type 0 where
  pub user_name : String
  pub token_auth : String
  pub fighting_pit_id : ℕ
  pub world_server_id : String
  pub is_ambush : Bool
  pub id_encounter : ℕ
  pub level_encounter : FbLevel

pub record ArenaServerValidateAuth : Type 0 where
  pub user_name : String
  pub token_auth : String
  pub fighting_pit_id : ℕ

pub record ArenaServerAuth : Type 0 where
  pub user_name : String
  pub token_auth : String
  pub hostname : String
  pub ip : String
  pub port : ℕ
  pub code_ws : String

pub record AwaitingArena : Type 0 where
  pub server_code : String
  pub is_ambush : Bool
  pub encounter_id : ℕ
  pub level_fighting_pit : Level

pub record AwaitingPlayerArena : Type 0 where
  pub name_player : String
  pub token : String
  pub fighting_pit_id : ℕ
  pub gen : Option AwaitingArena

abbrev pub has_to_be_generated : AwaitingPlayerArena → Bool
has_to_be_generated apa =
    apa.fighting_pit_id == 0 && elim apa.gen [ none ↦ false | some gen ↦ true ]

abbrev pub translate_level_from_flatbuffer : FbLevel → Level
translate_level_from_flatbuffer fb_easy = easy
translate_level_from_flatbuffer fb_medium = medium
translate_level_from_flatbuffer fb_hard = hard
translate_level_from_flatbuffer other_level = easy

unfoldable pub create_awaiting_player : FightingPitEncounter → AwaitingPlayerArena
create_awaiting_player binary = record {
  name_player = binary.user_name;
  token = binary.token_auth;
  fighting_pit_id = binary.fighting_pit_id;
  gen =
      if binary.fighting_pit_id == 0
      then some (record {
        server_code = binary.world_server_id;
        is_ambush = binary.is_ambush;
        encounter_id = binary.id_encounter;
        level_fighting_pit = translate_level_from_flatbuffer binary.level_encounter;
      })
      else none;
}

-- What the server is given: the configuration, the decoding of messages, the script engine in a fresh
-- state, the cache of scripts, the random numbers, `std::sort`, the values of what is not initialised,
-- and the fuel of the loops of the turn order and of `addFightingPit`.
pub record Platform {ℓ} (S : Type ℓ) (C R : Type 0) : Type ℓ where
  pub encounter_context : EncounterContext
  pub hostname : String
  pub connection_string : String
  pub port : ℕ
  pub get_fighting_pit_encounter : String → FightingPitEncounter
  pub get_arena_server_validate_auth : String → ArenaServerValidateAuth
  pub engine : ScriptEngine S
  pub fresh_scripts : S
  pub cache : ScriptCache C
  pub generator : Generator R
  pub sort_sides : (SideBattle → SideBattle → Bool) → List SideBattle → List SideBattle
  pub sort : List PriorityElem → List PriorityElem
  pub unset_speed : ℕ
  pub unset_arena_id : ℕ
  pub fuel : ℕ
  pub id_fuel : ℕ

pub record ArenaServerService {ℓ} (S : Type ℓ) (C R : Type 0) : Type ℓ where
  pub cache_state : C
  pub random : R
  pub worker_service : WorkerService S
  pub awaiting_arena : List (String × AwaitingPlayerArena)

-- A message that the server sends: the reply to a world server, or a broadcast to a player.
pub data Sent : Type 0 where
  reply : String → ArenaServerAuth → Sent
  new_team : String → Sent

-- `find` and the iterator's `erase` of an `unordered_map`: each key comes once.
unfoldable pub find_awaited :
    List (String × AwaitingPlayerArena) → String → Option AwaitingPlayerArena
unfolding at_zone
find_awaited awaiting token = at_zone awaiting token

unfoldable pub erase_awaited :
    String → List (String × AwaitingPlayerArena) → List (String × AwaitingPlayerArena)
erase_awaited token awaiting =
    filter (λ (e : String × AwaitingPlayerArena). not (str_eq e.0 token)) awaiting

-- `none` is the iterator at the end.
unfoldable pub is_player_awaited :
    List (String × AwaitingPlayerArena) → String → String → ℕ → Option AwaitingPlayerArena
unfolding find_awaited
is_player_awaited awaiting name token id_fighting_pit = elim (find_awaited awaiting token) [
  | none ↦ none
  | some apa ↦
      if str_eq apa.name_player name && apa.fighting_pit_id == id_fighting_pit
      then some apa
      else none
]

-- The builder of `createNewFightingPit`.
unfoldable pub announcer_for : AwaitingPlayerArena → AwaitingArena → FightingPitAnnouncer
unfolding set_encounter_id
announcer_for awaited gen = set_creator_team_party (retrieve_party_team awaited.name_player) (
    set_creator_user_token awaited.token (
      set_creator_user_name awaited.name_player (
        enforce_ambush gen.is_ambush (
          set_encounter_id gen.encounter_id
            (set_difficulty gen.level_fighting_pit new_announcer)))))
