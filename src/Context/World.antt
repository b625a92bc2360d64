-- ===== src/Context/World.antt =====
-- The context of a world server: services/worldserver/include/WorldServerContext.hh and
-- services/worldserver/src/WorldServerContext.cpp, over the documents of `Json` and numbers of the
-- platform.
use Prim.Native.String.{String, ◌++◌ as str_append}
use fy_s.Common.{Option, some, List, [], ◌∷◌}
use mathlib.Core.Option.{none}
use fy_s.Scripting.Texts.{has_char, to_string}
use fy_s.WorldServer.CollisionMap.{ProximityServer, ProximityServerAxis}
use fy_s.Context.{◌>>=◌}
use fy_s.Context.Json.{Json}
use fy_s.Context.Service.{ServiceContextBase}

pub record WorldServerContext (D : Type 0) : Type 0 where
  pub server_code : String
  pub tmx_map_path : String
  pub server_x_boundaries : D × D
  pub server_y_boundaries : D × D
  pub server_proximity : List (ProximityServer D)

module _ {J D : Type 0} (json : Json J) (as_double : J → Option D) where
  -- The sign `>` is the character 62.
  unfoldable pub axis_of : J → Option (ProximityServerAxis D)
  unfolding has_char
  axis_of proxi = do
    value ← json.member proxi "value"
    value ← as_double value
    condition ← json.member proxi "condition"
    condition ← json.as_string condition
    some (record { value = value; superior_to = has_char 62 condition })

  -- An axis that is null has no requirement.
  unfoldable pub requirement_of : J → String → Option (Option (ProximityServerAxis D))
  unfolding axis_of
  requirement_of value axis = elim (json.present value axis) [
    | none ↦ some none
    | some proxi ↦ axis_of proxi >>= (λ r. some (some r))
  ]

  unfoldable pub proximity_of : J → Option (ProximityServer D)
  unfolding requirement_of
  proximity_of value = do
    code ← json.member value "code"
    code ← json.as_string code
    x ← requirement_of value "overlap_x"
    y ← requirement_of value "overlap_y"
    some (record { code = code; x_axis_requirement = x; y_axis_requirement = y })

  unfoldable pub proximities_of : List J → Option (List (ProximityServer D))
  unfolding proximity_of
  proximities_of [] = some []
  proximities_of (value ∷ values) =
      let rest = proximities_of values in
      proximity_of value >>= (λ p. rest >>= (λ ps. some (p ∷ ps)))

  abbrev pub overlaps_of : J → List J
  overlaps_of conf = elim (json.present conf "overlapServer") [
    | none ↦ []
    | some overlaps ↦ json.items overlaps
  ]

  unfoldable pub number_of : J → String → Option D
  number_of conf key = json.member conf key >>= as_double

  unfoldable pub init_ws_context_with_json : J → Option (WorldServerContext D)
  unfolding number_of proximities_of
  init_ws_context_with_json config = do
    ws ← json.member config "worldServer"
    conf ← json.member ws "conf"
    code ← json.member ws "code"
    code ← json.as_string code
    path ← json.member ws "TMX_Map"
    path ← json.as_string path
    begin_x ← number_of conf "begin_x"
    end_x ← number_of conf "end_x"
    begin_y ← number_of conf "begin_y"
    end_y ← number_of conf "end_y"
    proximity ← proximities_of (overlaps_of conf)
    some (record {
      server_code = code;
      tmx_map_path = path;
      server_x_boundaries = (begin_x, end_x);
      server_y_boundaries = (begin_y, end_y);
      server_proximity = proximity;
    })

  -- The constructor, on what the base class made.
  unfoldable pub new_world_server_context :
      (String → Option J) → Option ServiceContextBase → Option (WorldServerContext D)
  unfolding init_ws_context_with_json
  new_world_server_context read_json made = do
    base ← made
    config ← read_json base.config_file
    init_ws_context_with_json config

unfoldable pub get_dispatcher_sub_connection_string : ServiceContextBase → String
unfolding to_string
get_dispatcher_sub_connection_string base = str_append "tcp://" (
    str_append base.dispatcher_data.address
      (str_append ":" (to_string base.dispatcher_data.subscriber_port)))
