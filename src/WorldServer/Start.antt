-- ===== src/WorldServer/Start.antt =====
-- The start of a world server: services/worldserver/src/main.cpp, and the constructors of
-- services/worldserver/src/WorldServerService.cpp and services/worldserver/src/engine/CollisionMap.cpp.
use Prim.Native.String.{String}
use fy_s.Common.{ℕ, Option, some, []}
use mathlib.Core.Option.{none}
use fy_s.WorldServer.Double.{Double}
use fy_s.WorldServer.CollisionMap.{CollisionMap, TmxMap, build_map_from_tmx}
use fy_s.WorldServer.PlayersData.{new_players_data}
use fy_s.WorldServer.Engine.{WorldServerEngine}
use fy_s.WorldServer.Service.{ConnectionHandler, WorldServerService}
use fy_s.Context.{◌>>=◌}
use fy_s.Context.Json.{Json}
use fy_s.Context.Arena.{get_dispatcher_connection_string}
use fy_s.Context.Service.{ServiceContextBase}
use fy_s.Context.World.{
  WorldServerContext, new_world_server_context, get_dispatcher_sub_connection_string,
}

-- What `setupConnectionManager` asks of the sockets: a topic, and the two addresses.
pub record Connections : Type 0 where
  pub subscribed : String
  pub sub_address : String
  pub dispatcher_address : String

module _ {D : Type 0} (d : Double D) where
  -- `load` is the library's, with `none` for a map that cannot be read. The tile sizes are not known
  -- before the first map.
  unfoldable pub new_collision_map :
      (String → Option (TmxMap D)) → WorldServerContext D → Option (CollisionMap D)
  unfolding build_map_from_tmx
  new_collision_map load ctx =
      elim (build_map_from_tmx d (load ctx.tmx_map_path)
        (record { g_tile_size_x = none; g_tile_size_y = none }, [])) [
          | none ↦ none
          | some (sizes, grid) ↦ some (record {
            boundary_x = ctx.server_x_boundaries;
            boundary_y = ctx.server_y_boundaries;
            server_proximity = ctx.server_proximity;
            map_elems = grid;
          })
        ]

  -- The data of the players have `n` places.
  unfoldable pub new_world_server_engine :
      (String → Option (TmxMap D)) → ℕ → WorldServerContext D → Option (WorldServerEngine D)
  unfolding new_collision_map
  new_world_server_engine load n ctx = do
    map ← new_collision_map load ctx
    some (record { map = map; pd = new_players_data d n })

  unfoldable pub connections_of : ServiceContextBase → WorldServerContext D → Connections
  unfolding get_dispatcher_connection_string get_dispatcher_sub_connection_string
  connections_of base ctx = record {
    subscribed = ctx.server_code;
    sub_address = get_dispatcher_sub_connection_string base;
    dispatcher_address = get_dispatcher_connection_string base;
  }

  -- `main` up to the loop; `connect` is the library's, and gives the sockets.
  unfoldable pub start_world_server :
      {J : Type 0}
      → Json J
      → (J → Option D)
      → (String → Option J)
      → (String → Option (TmxMap D))
      → (Connections → ConnectionHandler)
      → ℕ
      → Option ServiceContextBase
      → Option (WorldServerService D)
  unfolding new_world_server_engine connections_of
  start_world_server json as_double read_json load connect n made = do
    base ← made
    ctx ← new_world_server_context json as_double read_json (some base)
    engine ← new_world_server_engine load n ctx
    some (record { world_server = engine; connection_handler = connect (connections_of base ctx) })
