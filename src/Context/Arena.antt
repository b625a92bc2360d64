-- ===== src/Context/Arena.antt =====
-- The context of an arena server: services/arena/include/ArenaServerContext.hh and
-- services/arena/src/ArenaServerContext.cpp, over the documents of `Json`.
use Prim.Native.String.{String, ◌++◌ as str_append}
use text.Mathlib.Text.{◌==◌ as str_eq}
use fy_s.Common.{ℕ, Option, some, List, [], ◌∷◌, ◌++◌, if◌then◌else◌}
use mathlib.Core.Option.{none}
use fy_s.Scripting.Texts.{to_string}
use fy_s.BoundaryMap.{EncounterDesc}
use fy_s.Encounters.{EncounterContext, validate_encounter_context}
use fy_s.Context.{◌>>=◌}
use fy_s.Context.Json.{Json}
use fy_s.Context.Service.{ServiceContextBase}

pub record ArenaServerContext : Type 0 where
  pub code : String
  pub path_local_storage_cache : String
  pub path_source_cache : String
  pub db_host : String
  pub db_port : ℕ
  pub player_connection_port : ℕ
  pub encounter_context : EncounterContext

-- `emplace_back` at the zone of a map.
unfoldable pub file_contender :
    String → EncounterDesc → List (String × List EncounterDesc) → List (String × List EncounterDesc)
file_contender zone desc [] = (zone, desc ∷ []) ∷ []
file_contender zone desc ((key, descs) ∷ zones) =
    let later = file_contender zone desc zones in
    if str_eq key zone then (key, descs ++ desc ∷ []) ∷ zones else (key, descs) ∷ later

-- The exception of an invalid context.
unfoldable pub checked : ArenaServerContext → Option ArenaServerContext
checked ctx = if validate_encounter_context ctx.encounter_context then some ctx else none

module _ {J : Type 0} (json : Json J) where
  -- The two numbers of a difficulty.
  unfoldable pub range_of : J → String → Option (ℕ × ℕ)
  range_of range difficulty = do
    r ← json.member range difficulty
    low ← json.element r 0
    low ← json.as_uint low
    high ← json.element r 1
    high ← json.as_uint high
    some (low, high)

  unfoldable pub chance_of : J → String → Option ℕ
  chance_of contender difficulty = do
    chances ← json.member contender "chance"
    chance ← json.member chances difficulty
    json.as_uint chance

  -- The body of the loop over the contenders: the zone and the description.
  unfoldable pub contender_of : J → Option (String × EncounterDesc)
  unfolding chance_of
  contender_of contender = do
    key ← json.member contender "key"
    key ← json.as_string key
    max_encountering ← json.value_uint contender "max_encountering" 99
    easy ← chance_of contender "easy"
    medium ← chance_of contender "medium"
    hard ← chance_of contender "hard"
    zone ← json.member contender "zone"
    zone ← json.as_string zone
    some (
      zone,
      record { key = key; max_encountering = max_encountering; chance = easy ∷ medium ∷ hard ∷ [] },
    )

  unfoldable pub contenders_of :
      List J → List (String × List EncounterDesc) → Option (List (String × List EncounterDesc))
  unfolding contender_of file_contender
  contenders_of [] zones = some zones
  contenders_of (contender ∷ rest) zones = elim (contender_of contender) [
    | none ↦ none
    | some (zone, desc) ↦ contenders_of rest (file_contender zone desc zones)
  ]

  abbrev pub entries_of : J → List J
  entries_of encounter = elim (json.present encounter "contenders") [
    | none ↦ []
    | some v ↦ json.items v
  ]

  -- The part of `parseArenaConfigFile` on the zone configuration. The contenders may be absent.
  unfoldable pub encounter_of : J → Option EncounterContext
  unfolding range_of contenders_of
  encounter_of zone_configuration = do
    encounter ← json.member zone_configuration "encounter"
    range ← json.member encounter "range"
    zone ← json.member range "zone"
    zone ← json.as_string zone
    easy ← range_of range "easy"
    medium ← range_of range "medium"
    hard ← range_of range "hard"
    zones ← contenders_of (entries_of encounter) []
    some (record {
      range_encounter_per_zone = (zone, easy ∷ medium ∷ hard ∷ []) ∷ [];
      contenders_per_zone = zones;
    })

  unfoldable pub parse_arena_config_file : (String → Option J) → J → Option ArenaServerContext
  unfolding encounter_of checked
  parse_arena_config_file read_json config_content = do
    arena ← json.member config_content "Arena"
    code ← json.member arena "code"
    code ← json.as_string code
    port ← json.member arena "player_connection_port"
    port ← json.as_uint port
    source ← json.member arena "script_cache_source"
    source ← json.as_string source
    storage ← json.member arena "script_storage_cache"
    storage ← json.as_string storage
    host ← json.member arena "db_hostname"
    host ← json.as_string host
    db_port ← json.member arena "db_port"
    db_port ← json.as_uint db_port
    path ← json.member arena "zone_configuration"
    path ← json.as_string path
    zone_configuration ← read_json path
    encounter ← encounter_of zone_configuration
    checked (record {
      code = code;
      path_local_storage_cache = storage;
      path_source_cache = source;
      db_host = host;
      db_port = db_port;
      player_connection_port = port;
      encounter_context = encounter;
    })

  -- The constructor, on what the base class made.
  unfoldable pub new_arena_server_context :
      (String → Option J) → Option ServiceContextBase → Option ArenaServerContext
  unfolding parse_arena_config_file
  new_arena_server_context read_json made = do
    base ← made
    config ← read_json base.config_file
    parse_arena_config_file read_json config

unfoldable pub get_dispatcher_connection_string : ServiceContextBase → String
unfolding to_string
get_dispatcher_connection_string base =
    str_append "tcp://" (
      str_append base.dispatcher_data.address
        (str_append ":" (to_string base.dispatcher_data.port)))

unfoldable pub get_player_binding_string : ArenaServerContext → String
unfolding to_string
get_player_binding_string ctx = str_append "tcp://*:" (to_string ctx.player_connection_port)
