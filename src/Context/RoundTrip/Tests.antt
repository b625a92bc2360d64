-- ===== src/Context/RoundTrip/Tests.antt =====
-- An arena server that starts from two documents.
use Prim.Native.String.{String}
use text.Mathlib.Text.{◌==◌ as str_eq}
use fy_s.Common.{ℕ, ◌%◌, ◌^◌, arith, ◌≡◌, refl, true, Option, some, List, [], ◌∷◌, if◌then◌else◌}
use mathlib.Core.Option.{none}
use fy_s.Encounters.{at_zone, validate_encounter_context}
use fy_s.Context.Service.{ServiceContextBase}
use fy_s.Context.Zones.{Contender, contenders_in, joined}
use fy_s.Context.Arena.{file_contender, new_arena_server_context}
use fy_s.Context.RoundTrip.{
  Configuration, arena_document, zone_document, context_of, new_arena_server_context-documents,
}
use fy_s.Context.Json.{Whole}
use fy_s.Context.Values.{Value, json, documents}

abbrev whole : ℕ → Whole
whole n = (n % 2 ^ 64, omega arith)

abbrev monsters : List Contender
monsters =
    (record {
      zone = "WS00";
      key = "wolf";
      max_encountering = whole 2;
      easy = whole 60;
      medium = whole 50;
      hard = whole 0;
    })
    ∷ (record {
      zone = "WS01";
      key = "bear";
      max_encountering = whole 1;
      easy = whole 100;
      medium = whole 100;
      hard = whole 100;
    })
    ∷ (record {
      zone = "WS00";
      key = "boar";
      max_encountering = whole 9;
      easy = whole 40;
      medium = whole 50;
      hard = whole 100;
    })
    ∷ []

abbrev configuration : Configuration
configuration = record {
  code = "AS00";
  player_connection_port = whole 4242;
  script_cache_source = "/scripts";
  script_storage_cache = "/cache";
  db_hostname = "db";
  db_port = whole 3306;
  zone_configuration = "zones.json";
  zone = "WS00";
  easy = (whole 1, whole 2);
  medium = (whole 2, whole 4);
  hard = (whole 3, whole 6);
  contenders = monsters;
}

abbrev base : ServiceContextBase
base = record {
  version = "1.0";
  name = "arena";
  config_file = "arena.json";
  hostname = "localhost";
  port = 1;
  dispatcher_data = record { address = "localhost"; subscriber_port = 2; port = 3 };
}

abbrev read_json : String → Option Value
read_json path =
    if str_eq path "arena.json"
    then some (arena_document json documents configuration)
    else if str_eq path "zones.json"
    then some (zone_document json documents configuration)
    else none

new_arena_server_context-documents_example :
    (new_arena_server_context json read_json (some base) ≡ (
      if validate_encounter_context (context_of configuration).encounter_context
      then some (context_of configuration)
      else none))
    × (at_zone (context_of configuration).encounter_context.contenders_per_zone "WS00"
        ≡ joined none (contenders_in "WS00" monsters))
new_arena_server_context-documents_example =
    new_arena_server_context-documents json documents read_json base configuration "WS00" refl refl

-- This configuration is valid.
valid_configuration : validate_encounter_context (context_of configuration).encounter_context ≡ true
unfolding validate_encounter_context file_contender
valid_configuration = refl
