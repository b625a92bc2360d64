-- ===== src/WorldServer/CollisionMap/Tests.antt =====
-- A map of three by two tiles with two walls, where whole numbers stand for the coordinates.
use fy_s.Common.{ℕ, ◌≡◌, refl, [], ◌∷◌, arith}
use fy_s.WorldServer.Whole.{whole}
use fy_s.WorldServer.CollisionMap.{FloatRect, TmxMap, object_group, other_layer, tile}
use fy_s.WorldServer.CollisionMap.Blocked.{Placed, covering, collision_boxes}

abbrev pub wall : FloatRect ℕ
wall = record { left = 0; top = 10; width = 20; height = 10 }

abbrev pub post : FloatRect ℕ
post = record { left = 10; top = 0; width = 10; height = 20 }

abbrev pub walled : TmxMap ℕ
walled = record {
  tile_count_x = 3;
  tile_count_y = 2;
  tile_size_x = 10;
  tile_size_y = 10;
  layers =
      other_layer
      ∷ object_group ("collision" ∷ []) (wall ∷ post ∷ [])
      ∷ object_group ("decoration" ∷ []) (wall ∷ [])
      ∷ [];
}

pub walled-Placed : Placed whole walled (collision_boxes whole walled.layers)
unfolding tile
walled-Placed =
    let second : Placed whole walled (post ∷ []) = (
      record { first_row = refl; last_row = refl; first_column = refl; last_column = refl },
      omega arith,
      omega arith,
      tt,
    ) in
    (
      record { first_row = refl; last_row = refl; first_column = refl; last_column = refl },
      omega arith,
      omega arith,
      second,
    )

both_on_tile : covering whole walled (wall ∷ post ∷ []) 1 1 ≡ wall ∷ post ∷ []
unfolding tile
both_on_tile = refl

none_on_tile : covering whole walled (wall ∷ post ∷ []) 0 2 ≡ []
unfolding tile
none_on_tile = refl
