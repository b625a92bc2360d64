-- ===== src/WorldServer/Started/Tests.antt =====
-- A world server that starts from a document and a map of three by two tiles.
use Prim.Native.String.{String}
use fy_s.Common.{ℕ, ltb, Bool, ◌≡◌, refl, true, false, ◌&&◌, Option, some, [], ◌∷◌}
use mathlib.Core.Option.{none}
use fy_s.WorldServer.Whole.{whole}
use fy_s.WorldServer.CollisionMap.{TmxMap, is_at_proximity}
use fy_s.WorldServer.CollisionMap.Tests.{walled}
use fy_s.WorldServer.Service.{ConnectionHandler}
use fy_s.WorldServer.Start.{Connections}
use fy_s.Context.Service.{ServiceContextBase}
use fy_s.Context.Values.{Value, num, json, documents, as_whole}
use fy_s.Context.WorldRoundTrip.{Neighbour, World, world_document}

abbrev east : Neighbour ℕ
east = record { code = "WS01"; overlap_x = some (25, "x > 25"); overlap_y = none }

abbrev world : World ℕ
world = record {
  code = "WS00";
  tmx_map = "map.tmx";
  x = (0, 30);
  y = (0, 20);
  neighbours = east ∷ [];
}

abbrev base : ServiceContextBase
base = record {
  version = "1.0";
  name = "world";
  config_file = "world.json";
  hostname = "localhost";
  port = 1;
  dispatcher_data = record { address = "localhost"; subscriber_port = 2; port = 3 };
}

abbrev read_json : String → Option Value
read_json path = some (world_document json documents as_whole num (λ x. refl) world)

abbrev load : String → Option (TmxMap ℕ)
load path = some walled

abbrev connect : Connections → ConnectionHandler
connect asked = record { incoming = []; is_connected = true; sent = [] }

-- The eastern server overlaps on one axis only, and no position is near it.
never_near_east :
    (x : ℕ)
    → is_at_proximity whole
        (record {
          code = "WS01";
          x_axis_requirement = some (record { value = 25; superior_to = true });
          y_axis_requirement = none;
        })
        x
      ≡ false
unfolding is_at_proximity
never_near_east x = and_false (ltb 25 x)
  where
    and_false : (b : Bool) → (b && false) ≡ false
    and_false true = refl
    and_false false = refl
