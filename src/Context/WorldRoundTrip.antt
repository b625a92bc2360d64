-- ===== src/Context/WorldRoundTrip.antt =====
-- The configuration of a world server, written as a JSON document and read by
-- services/worldserver/src/WorldServerContext.cpp.
use Prim.Native.String.{String}
use fy_s.Common.{◌≡◌, refl, Option, some, List, [], ◌∷◌, map}
use mathlib.Core.Option.{none}
use mathlib.Core.Option
use fy_s.Cache.{get_at}
use fy_s.Scripting.Texts.{has_char}
use fy_s.WorldServer.CollisionMap.{ProximityServer, ProximityServerAxis}
use fy_s.Context.Json.{Json, Documents}
use fy_s.Context.Service.{ServiceContextBase}
use fy_s.Context.World.{
  WorldServerContext, axis_of, requirement_of, proximity_of, proximities_of, overlaps_of, number_of,
  init_ws_context_with_json, new_world_server_context,
}

-- A neighbouring server: its code, and where the two overlap on an axis, if they do: a limit, and a
-- condition with the sign > or without.
pub record Neighbour (D : Type 0) : Type 0 where
  pub code : String
  pub overlap_x : Option (D × String)
  pub overlap_y : Option (D × String)

pub record World (D : Type 0) : Type 0 where
  pub code : String
  pub tmx_map : String
  pub x : D × D
  pub y : D × D
  pub neighbours : List (Neighbour D)

module _ {D : Type 0} where
  abbrev axis_from : D × String → ProximityServerAxis D
  axis_from o = record { value = o.0; superior_to = has_char 62 o.1 }

  abbrev server_from : Neighbour D → ProximityServer D
  server_from n = record {
    code = n.code;
    x_axis_requirement = Option.map axis_from n.overlap_x;
    y_axis_requirement = Option.map axis_from n.overlap_y;
  }

  -- The context that a configuration means.
  abbrev pub world_from : World D → WorldServerContext D
  world_from w = record {
    server_code = w.code;
    tmx_map_path = w.tmx_map;
    server_x_boundaries = w.x;
    server_y_boundaries = w.y;
    server_proximity = map server_from w.neighbours;
  }

module _ {J D : Type 0} (json : Json J) (d : Documents J json) (as_double : J → Option D)
    (double : D → J) (as_double-double : (x : D) → as_double (double x) ≡ some x) where
  abbrev overlap_fields : D × String → List (String × J)
  overlap_fields o = ("value", double o.0) ∷ ("condition", d.text o.1) ∷ []

  abbrev overlap_document : Option (D × String) → J
  overlap_document none = d.nothing
  overlap_document (some o) = d.object (overlap_fields o)

  abbrev neighbour_fields : Neighbour D → List (String × J)
  neighbour_fields n =
      ("code", d.text n.code)
      ∷ ("overlap_x", overlap_document n.overlap_x)
      ∷ ("overlap_y", overlap_document n.overlap_y)
      ∷ []

  abbrev neighbour_document : Neighbour D → J
  neighbour_document n = d.object (neighbour_fields n)

  abbrev conf_fields : World D → List (String × J)
  conf_fields w =
      ("begin_x", double w.x.0)
      ∷ ("end_x", double w.x.1)
      ∷ ("begin_y", double w.y.0)
      ∷ ("end_y", double w.y.1)
      ∷ ("overlapServer", d.array (map neighbour_document w.neighbours))
      ∷ []

  abbrev server_fields : World D → List (String × J)
  server_fields w =
      ("code", d.text w.code)
      ∷ ("TMX_Map", d.text w.tmx_map)
      ∷ ("conf", d.object (conf_fields w))
      ∷ []

  abbrev pub world_document : World D → J
  world_document w = d.object (("worldServer", d.object (server_fields w)) ∷ [])

  axis_of-document :
      (o : D × String) → axis_of json as_double (d.object (overlap_fields o)) ≡ some (axis_from o)
  unfolding axis_of get_at
  axis_of-document o =
      simp
        (
          d.member-object (overlap_fields o) "value" (double o.0) refl,
          d.member-object (overlap_fields o) "condition" (d.text o.1) refl,
          as_double-double,
          d.as_string-text,
        )
        refl

  requirement_of-document :
      (fields : List (String × J)) (axis : String) (o : Option (D × String))
      → get_at fields axis ≡ some (overlap_document o)
      → requirement_of json as_double (d.object fields) axis ≡ some (Option.map axis_from o)
  unfolding requirement_of
  requirement_of-document fields axis none e =
      rw (requirement_of, d.present-nothing fields axis e) refl
  requirement_of-document fields axis (some o) e =
      let found = d.present-nested fields (overlap_fields o) axis e in
      rw (requirement_of, found, requirement_of, axis_of-document o) refl

  proximity_of-document :
      (n : Neighbour D) → proximity_of json as_double (neighbour_document n) ≡ some (server_from n)
  unfolding proximity_of get_at
  proximity_of-document n =
      simp
        (
          d.member-object (neighbour_fields n) "code" (d.text n.code) refl,
          d.as_string-text,
          requirement_of-document (neighbour_fields n) "overlap_x" n.overlap_x refl,
          requirement_of-document (neighbour_fields n) "overlap_y" n.overlap_y refl,
        )
        refl

  proximities_of-documents :
      (ns : List (Neighbour D))
      → proximities_of json as_double (map neighbour_document ns) ≡ some (map server_from ns)
  unfolding proximities_of
  proximities_of-documents [] = refl
  proximities_of-documents (n ∷ ns) =
      rw (proximities_of, proximity_of-document n, proximities_of-documents ns) refl

  overlaps_of-document :
      (w : World D)
      → overlaps_of json as_double (d.object (conf_fields w)) ≡ map neighbour_document w.neighbours
  unfolding get_at
  overlaps_of-document w =
      let found =
        d.present-object (conf_fields w) "overlapServer" (map neighbour_document w.neighbours)
          refl in
      rw (overlaps_of, found) (d.items-array (map neighbour_document w.neighbours))

  number_of-document :
      (fields : List (String × J)) (key : String) (x : D)
      → get_at fields key ≡ some (double x)
      → number_of json as_double (d.object fields) key ≡ some x
  unfolding number_of
  number_of-document fields key x e =
      rw (d.member-object fields key (double x) e) (as_double-double x)

  -- A world server whose file says what the configuration `w` says starts with just that context: the
  -- neighbouring servers in their order, with the axes that are given.
  pub new_world_server_context-document :
      (read_json : String → Option J) (base : ServiceContextBase) (w : World D)
      → read_json base.config_file ≡ some (world_document w)
      → new_world_server_context json as_double read_json (some base) ≡ some (world_from w)
  unfolding new_world_server_context init_ws_context_with_json get_at
  new_world_server_context-document read_json base w config =
      simp
        (
          config,
          d.member-object (("worldServer", d.object (server_fields w)) ∷ []) "worldServer"
              (d.object (server_fields w)) refl,
          d.member-object (server_fields w) "conf" (d.object (conf_fields w)) refl,
          d.member-object (server_fields w) "code" (d.text w.code) refl,
          d.member-object (server_fields w) "TMX_Map" (d.text w.tmx_map) refl,
          d.as_string-text,
          number_of-document (conf_fields w) "begin_x" w.x.0 refl,
          number_of-document (conf_fields w) "end_x" w.x.1 refl,
          number_of-document (conf_fields w) "begin_y" w.y.0 refl,
          number_of-document (conf_fields w) "end_y" w.y.1 refl,
          overlaps_of-document w,
          proximities_of-documents w.neighbours,
        )
        refl
