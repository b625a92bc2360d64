-- ===== src/WorldServer/Started.antt =====
-- What a world server starts with: services/worldserver/src/main.cpp.
mod Tests
use Prim.Native.String.{String, ◌++◌ as str_append}
use fy_s.Scripting.Texts.{to_string}
use fy_s.Common.{ℕ, Option}
use mathlib.Core.Option.{none}
use fy_s.WorldServer.Double.{Double}
use fy_s.WorldServer.CollisionMap.{CollisionMap, Grid, build_map_from_tmx}
use fy_s.WorldServer.Service.{WorldServerService}
use fy_s.Context.Json.{Json}
use fy_s.Context.World.{new_world_server_context}
use fy_s.Context.WorldRoundTrip.{World, world_from}

-- The address of a port of a host.
abbrev pub tcp : String → ℕ → String
tcp host port = str_append "tcp://" (str_append host (str_append ":" (to_string port)))

module _ {D : Type 0} (d : Double D) where
  -- The map of a configuration with these elements.
  abbrev pub map_from : World D → Grid D → CollisionMap D
  map_from w grid = record {
    boundary_x = w.x;
    boundary_y = w.y;
    server_proximity = (world_from w).server_proximity;
    map_elems = grid;
  }
