-- ===== src/Context/RoundTrip.antt =====
-- The configuration of an arena server, written as JSON documents and read by
-- services/arena/src/ArenaServerContext.cpp.
mod Tests
use Prim.Native.String.{String}
use fy_s.Common.{
  ℕ, ◌%◌, uint_mod, ◌≡◌, refl, sym, ap, ◌∙◌, Bool, true, false, Option, some, List, [], ◌∷◌, map,
  get_elem?, if◌then◌else◌,
}
use mathlib.Core.Option.{none}
use fy_s.BoundaryMap.{EncounterDesc}
use fy_s.Encounters.{EncounterContext, validate_encounter_context}
use fy_s.Cache.{get_at}
use fy_s.Context.{◌>>=◌}
use fy_s.Context.Json.{Json, Documents, Whole}
use fy_s.Context.Service.{ServiceContextBase}
use fy_s.Encounters.{at_zone}
use fy_s.Context.Zones.{Contender, desc_of, zones_from, contenders_in, joined, at_zone-zones_from}
use fy_s.Context.Arena.{
  ArenaServerContext, file_contender, range_of, chance_of, contender_of, contenders_of, entries_of,
  encounter_of, checked, parse_arena_config_file, new_arena_server_context,
}

-- A configuration.
pub record Configuration : Type 0 where
  pub code : String
  pub player_connection_port : Whole
  pub script_cache_source : String
  pub script_storage_cache : String
  pub db_hostname : String
  pub db_port : Whole
  pub zone_configuration : String
  pub zone : String
  pub easy : Whole × Whole
  pub medium : Whole × Whole
  pub hard : Whole × Whole
  pub contenders : List Contender

abbrev wrapped : Whole × Whole → ℕ × ℕ
wrapped r = (r.0.0 % uint_mod, r.1.0 % uint_mod)

-- The context that a configuration means.
abbrev pub context_of : Configuration → ArenaServerContext
context_of c = record {
  code = c.code;
  path_local_storage_cache = c.script_storage_cache;
  path_source_cache = c.script_cache_source;
  db_host = c.db_hostname;
  db_port = c.db_port.0 % uint_mod;
  player_connection_port = c.player_connection_port.0 % uint_mod;
  encounter_context = record {
    range_encounter_per_zone =
        (c.zone, wrapped c.easy ∷ wrapped c.medium ∷ wrapped c.hard ∷ []) ∷ [];
    contenders_per_zone = zones_from c.contenders [];
  };
}

module _ {J : Type 0} (json : Json J) (d : Documents J json) where
  abbrev pub range_document : Whole × Whole → J
  range_document r = d.array (d.number r.0 ∷ d.number r.1 ∷ [])

  abbrev chance_fields : Contender → List (String × J)
  chance_fields c =
      ("easy", d.number c.easy) ∷ ("medium", d.number c.medium) ∷ ("hard", d.number c.hard) ∷ []

  abbrev contender_fields : Contender → List (String × J)
  contender_fields c =
      ("zone", d.text c.zone)
      ∷ ("key", d.text c.key)
      ∷ ("max_encountering", d.number c.max_encountering)
      ∷ ("chance", d.object (chance_fields c))
      ∷ []

  abbrev pub contender_document : Contender → J
  contender_document c = d.object (contender_fields c)

  abbrev range_fields : Configuration → List (String × J)
  range_fields c =
      ("zone", d.text c.zone)
      ∷ ("easy", range_document c.easy)
      ∷ ("medium", range_document c.medium)
      ∷ ("hard", range_document c.hard)
      ∷ []

  abbrev encounter_fields : Configuration → List (String × J)
  encounter_fields c =
      ("range", d.object (range_fields c))
      ∷ ("contenders", d.array (map contender_document c.contenders))
      ∷ []

  abbrev pub zone_document : Configuration → J
  zone_document c = d.object (("encounter", d.object (encounter_fields c)) ∷ [])

  abbrev arena_fields : Configuration → List (String × J)
  arena_fields c =
      ("code", d.text c.code)
      ∷ ("player_connection_port", d.number c.player_connection_port)
      ∷ ("script_cache_source", d.text c.script_cache_source)
      ∷ ("script_storage_cache", d.text c.script_storage_cache)
      ∷ ("db_hostname", d.text c.db_hostname)
      ∷ ("db_port", d.number c.db_port)
      ∷ ("zone_configuration", d.text c.zone_configuration)
      ∷ []

  abbrev pub arena_document : Configuration → J
  arena_document c = d.object (("Arena", d.object (arena_fields c)) ∷ [])

  chance_of-document :
      (c : Contender) (difficulty : String) (n : Whole)
      → get_at (chance_fields c) difficulty ≡ some (d.number n)
      → chance_of json (contender_document c) difficulty ≡ some (n.0 % uint_mod)
  unfolding chance_of get_at
  chance_of-document c difficulty n e =
      let chances = d.object (chance_fields c) in
      simp
        (
          d.member-object (contender_fields c) "chance" chances refl,
          d.member-object (chance_fields c) difficulty (d.number n) e,
          d.as_uint-number,
        )
        refl

  contender_of-document :
      (c : Contender) → contender_of json (contender_document c) ≡ some (c.zone, desc_of c)
  unfolding contender_of get_at
  contender_of-document c =
      let at_most =
        d.value_uint-object (contender_fields c) "max_encountering" c.max_encountering 99 refl in
      simp
        (
          d.member-object (contender_fields c) "key" (d.text c.key) refl,
          d.member-object (contender_fields c) "zone" (d.text c.zone) refl,
          d.as_string-text,
          at_most,
          chance_of-document c "easy" c.easy refl,
          chance_of-document c "medium" c.medium refl,
          chance_of-document c "hard" c.hard refl,
        )
        refl

  contenders_of-documents :
      (cs : List Contender) (zones : List (String × List EncounterDesc))
      → contenders_of json (map contender_document cs) zones ≡ some (zones_from cs zones)
  unfolding contenders_of
  contenders_of-documents [] zones = refl
  contenders_of-documents (c ∷ cs) zones =
      rw (contenders_of, contender_of-document c)
        (contenders_of-documents cs (file_contender c.zone (desc_of c) zones))

  range_of-document :
      (fields : List (String × J)) (difficulty : String) (r : Whole × Whole)
      → get_at fields difficulty ≡ some (range_document r)
      → range_of json (d.object fields) difficulty ≡ some (wrapped r)
  unfolding range_of
  range_of-document fields difficulty r e =
      let numbers = d.number r.0 ∷ d.number r.1 ∷ [] in
      simp
        (
          d.member-object fields difficulty (range_document r) e,
          d.element-array numbers 0 (d.number r.0) refl,
          d.element-array numbers 1 (d.number r.1) refl,
          d.as_uint-number,
        )
        refl

  entries_of-document :
      (c : Configuration)
      → entries_of json (d.object (encounter_fields c)) ≡ map contender_document c.contenders
  unfolding get_at
  entries_of-document c =
      let contenders = map contender_document c.contenders in
      let found = d.present-object (encounter_fields c) "contenders" contenders refl in
      rw (entries_of, found) (d.items-array contenders)

  encounter_of-document :
      (c : Configuration)
      → encounter_of json (zone_document c) ≡ some (context_of c).encounter_context
  unfolding encounter_of get_at
  encounter_of-document c =
      let range = d.object (range_fields c) in
      simp
        (
          d.member-object (("encounter", d.object (encounter_fields c)) ∷ []) "encounter"
              (d.object (encounter_fields c)) refl,
          d.member-object (encounter_fields c) "range" range refl,
          d.member-object (range_fields c) "zone" (d.text c.zone) refl,
          d.as_string-text,
          range_of-document (range_fields c) "easy" c.easy refl,
          range_of-document (range_fields c) "medium" c.medium refl,
          range_of-document (range_fields c) "hard" c.hard refl,
          entries_of-document c,
          contenders_of-documents c.contenders [],
        )
        refl

  -- An arena server whose two files say what the configuration `c` says starts with just that context
  -- if it is valid, and throws otherwise: every text is the one of the files, every number that of
  -- the files modulo 2 ^ 32, and a zone has the contenders that name it, in their order, if there are
  -- any.
  pub new_arena_server_context-documents :
      (read_json : String → Option J) (base : ServiceContextBase) (c : Configuration) (z : String)
      → read_json base.config_file ≡ some (arena_document c)
      → read_json c.zone_configuration ≡ some (zone_document c)
      → (new_arena_server_context json read_json (some base) ≡ (
          if validate_encounter_context (context_of c).encounter_context
          then some (context_of c)
          else none))
        × (at_zone (context_of c).encounter_context.contenders_per_zone z
            ≡ joined none (contenders_in z c.contenders))
  unfolding new_arena_server_context parse_arena_config_file get_at at_zone checked
  new_arena_server_context-documents read_json base c z config zones = (
    simp
        (
          config,
          d.member-object (("Arena", d.object (arena_fields c)) ∷ []) "Arena"
              (d.object (arena_fields c)) refl,
          d.member-object (arena_fields c) "code" (d.text c.code) refl,
          d.member-object (arena_fields c) "player_connection_port"
              (d.number c.player_connection_port) refl,
          d.member-object (arena_fields c) "script_cache_source" (d.text c.script_cache_source)
              refl,
          d.member-object (arena_fields c) "script_storage_cache" (d.text c.script_storage_cache)
              refl,
          d.member-object (arena_fields c) "db_hostname" (d.text c.db_hostname) refl,
          d.member-object (arena_fields c) "db_port" (d.number c.db_port) refl,
          d.member-object (arena_fields c) "zone_configuration" (d.text c.zone_configuration) refl,
          d.as_string-text,
          d.as_uint-number,
          zones,
          encounter_of-document c,
        )
        refl,
    at_zone-zones_from c.contenders [] z,
  )
