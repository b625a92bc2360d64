-- ===== src/WorldServer/Engine/Tests.antt =====
-- A small world for services/worldserver/src/engine, where whole numbers stand for the `double`s.
use fy_s.Common.{ℕ, ◌≡◌, refl, Bool, false, Option, some, [], ◌∷◌, arith, take}
use mathlib.Core.Option.{none}
use fy_s.WorldServer.Whole.{whole}
use fy_s.WorldServer.CollisionMap.{
  CollisionMap, FloatRect, Grid, TileSizes, object_group, other_layer, build_map_from_tmx,
  add_layers, add_collision_in_map, add_object, mark_rows, mark_columns, mark, can_move_to,
  can_go_through, can_go_to_level, tile,
}
use fy_s.WorldServer.PlayersData.{
  PlayersData, PlayerInfo, standing, is_arround, get_player_idts_arround_pos,
}
use fy_s.WorldServer.PlayersData.Around.{neighbours, arround_pos-neighbours}

abbrev at : ℕ → ℕ → PlayerInfo ℕ
at x y = record { x = x; y = y; angle = 0 }

-- The first two are near the place (40, 50), the third one is far.
abbrev three_players : PlayersData ℕ
three_players = record {
  positions = at 41 50 ∷ at 42 51 ∷ at 90 50 ∷ [];
  status = standing ∷ standing ∷ standing ∷ [];
  identities = "ann" ∷ "ben" ∷ "cat" ∷ [];
  token_to_index = [];
}

arround_pos-neighbours_example :
    get_player_idts_arround_pos whole (at 40 50) 30 1 three_players
    ≡ some (
        take 50
          (neighbours whole (at 40 50) 30 1 0 three_players.positions three_players.identities))
arround_pos-neighbours_example =
    arround_pos-neighbours whole (at 40 50) 30 1 three_players (omega arith)

-- Only the first one is found when the second one is ignored.
ann_found :
    take 50 (neighbours whole (at 40 50) 30 1 0 three_players.positions three_players.identities)
    ≡ "ann" ∷ []
ann_found = refl

-- The y coordinate is not compared: a player in the very place is not found where x is the greater.
same_place : is_arround whole (at 100 50) 30 (at 100 50) ≡ false
same_place = refl

abbrev empty_map : CollisionMap ℕ
empty_map = record {
  boundary_x = (0, 9);
  boundary_y = (0, 9);
  server_proximity = [];
  map_elems = [];
}

-- A box over the tile in row 1 and column 0 of a map of 2 by 2 tiles of size 10.
abbrev wall : FloatRect ℕ
wall = record { left = 0; top = 10; width = 10; height = 10 }

abbrev walled : Option (TileSizes × Grid ℕ)
walled =
    build_map_from_tmx whole
      (some (record {
        tile_count_x = 2;
        tile_count_y = 2;
        tile_size_x = 10;
        tile_size_y = 10;
        layers = other_layer ∷ object_group ("collision" ∷ []) (wall ∷ []) ∷ [];
      }))
      (record { g_tile_size_x = none; g_tile_size_y = none }, [])

-- A position in the box is looked for at element (5, 15), which the map does not have.
abbrev move_into : Option (TileSizes × Grid ℕ) → Option Bool
move_into none = none
move_into (some (sizes, grid)) =
    can_move_to whole
      (record {
        boundary_x = (0, 20);
        boundary_y = (0, 20);
        server_proximity = [];
        map_elems = grid;
      })
      5 15 0

out_of_map : move_into walled ≡ none
unfolding build_map_from_tmx add_layers add_collision_in_map add_object mark_rows mark_columns mark
    can_move_to can_go_through can_go_to_level tile
out_of_map = refl
