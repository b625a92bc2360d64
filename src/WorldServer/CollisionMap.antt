-- ===== src/WorldServer/CollisionMap.antt =====
-- The map of a world server: services/worldserver/include/engine/CollisionMap.hh and
-- services/worldserver/src/engine/CollisionMap.cpp. The TMX library gives the layers of a map; a
-- rectangle's `float`s are taken as `double`s.
mod Elements
pub mod Marks
pub mod Spans
pub mod Blocked
pub mod Tests
unfoldable pub use Elements.*
use Prim.Native.String.{String}
use text.Mathlib.Text.{find?}
use fy_s.Common.{
  ℕ, zero, suc, ◌-◌, ◌/◌, Bool, true, false, not, ◌&&◌, ◌||◌, Option, some, List, [], ◌∷◌, ◌++◌,
  set, get_elem?, replicate, any, if◌then◌else◌, ltb, ◌==◌,
}
use mathlib.Core.Option.{none}
use fy_s.WorldServer.Double.{Double}

module _ {D : Type 0} (d : Double D) where
  abbrev pub meets : ProximityServerAxis D → D → Bool
  meets r axis = if r.superior_to then d.lt r.value axis else d.lt axis r.value

  abbrev pub meets_if : Option (ProximityServerAxis D) → D → Bool
  meets_if none axis = false
  meets_if (some r) axis = meets r axis

  unfoldable pub is_at_proximity : ProximityServer D → D → Bool
  is_at_proximity server axis =
      meets_if server.x_axis_requirement axis && meets_if server.y_axis_requirement axis

  -- `none` is a level that the `bitset` of 4 bits does not have, whose exception meets the `noexcept`.
  unfoldable pub can_go_to_level : ℕ → MapElement D → Option Bool
  can_go_to_level go_level e =
      if go_level == 0
      then some true
      else if ltb go_level 4
      then some (any (λ l. l == go_level) e.level || any (λ l. l == go_level) e.change_level)
      else none

  abbrev pub in_box : D → D → FloatRect D → Bool
  in_box x y aabb =
      d.le aabb.left x
      && (d.le x (d.add aabb.left aabb.width)
          && (d.le aabb.top y && d.le y (d.add aabb.top aabb.height)))

  unfoldable pub can_go_through : D → D → ℕ → MapElement D → Option Bool
  unfolding can_go_to_level
  can_go_through x y level e = elim (can_go_to_level level e) [
    | none ↦ none
    | some can ↦
        some (if can && is_block e.element_type then not (any (in_box x y) e.collisions) else can)
  ]

  -- `none` is an element out of the map, which C++ leaves undefined.
  unfoldable pub can_move_to : CollisionMap D → D → D → ℕ → Option Bool
  unfolding can_go_through
  can_move_to map x y level =
      let element : Option Bool = elim (d.to_unsigned x) [
        | none ↦ none
        | some i ↦ elim (get_elem? map.map_elems i) [
          | none ↦ none
          | some column ↦ elim (d.to_unsigned y) [
            | none ↦ none
            | some j ↦ elim (get_elem? column j) [
              | none ↦ none
              | some e ↦ can_go_through x y level e
            ]
          ]
        ]
      ] in
      if d.lt x map.boundary_x.0
        || (d.lt map.boundary_x.1 x || (d.lt y map.boundary_y.0 || d.lt map.boundary_y.1 y))
      then some false
      else element

  -- The division by a tile size of 0 is undefined, as is a number that is not an `unsigned`.
  unfoldable pub tile : D → ℕ → Option ℕ
  tile x size = elim (d.to_unsigned x) [
    | none ↦ none
    | some n ↦ if size == 0 then none else some (n / size)
  ]

  -- The element at row `y` and column `x`, with one more box.
  unfoldable pub mark : FloatRect D → ℕ → ℕ → Grid D → Option (Grid D)
  mark box y x grid = elim (get_elem? grid y) [
    | none ↦ none
    | some row ↦ elim (get_elem? row x) [
      | none ↦ none
      | some e ↦ some (set grid y (set row x (add_collision box (set_type block e))))
    ]
  ]

  -- The inner and the outer loop of `addCollisionInMap`, for a number of columns and rows.
  unfoldable pub mark_columns : FloatRect D → ℕ → ℕ → ℕ → Grid D → Option (Grid D)
  unfolding mark
  mark_columns box y x zero grid = some grid
  mark_columns box y x (suc n) grid = elim (mark box y x grid) [
    | none ↦ none
    | some grid' ↦ mark_columns box y (suc x) n grid'
  ]

  unfoldable pub mark_rows : FloatRect D → ℕ → ℕ → ℕ → ℕ → Grid D → Option (Grid D)
  unfolding mark_columns
  mark_rows box y zero x columns grid = some grid
  mark_rows box y (suc n) x columns grid = elim (mark_columns box y x columns grid) [
    | none ↦ none
    | some grid' ↦ mark_rows box (suc y) n x columns grid'
  ]

  -- The body of the loop over the objects. `getX` is called for the rows and `getY` for the columns,
  -- and each keeps the tile size of its first call.
  unfoldable pub add_object : ℕ → ℕ → FloatRect D → TileSizes × Grid D → Option (TileSizes × Grid D)
  unfolding mark_rows
  add_object tile_x tile_y box (sizes, grid) =
      let size_y = first_or sizes.g_tile_size_x tile_y in
      let size_x = first_or sizes.g_tile_size_y tile_x in
      let sized = record sizes { g_tile_size_x = some size_y } in
      let rows : Option (ℕ × ℕ) = elim (tile box.top size_y) [
        | none ↦ none
        | some first ↦ elim (tile (d.add box.top box.height) size_y) [
          | none ↦ none
          | some last ↦ some (first, last)
        ]
      ] in
      let columns : Option (ℕ × ℕ) = elim (tile box.left size_x) [
        | none ↦ none
        | some first ↦ elim (tile (d.add box.left box.width) size_x) [
          | none ↦ none
          | some last ↦ some (first, last)
        ]
      ] in
      elim rows [
        | none ↦ none
        | some (top, bottom) ↦ elim (ltb top bottom) [
          | false ↦ some (sized, grid)
          | true ↦ elim columns [
            | none ↦ none
            | some (left, right) ↦
                elim (mark_rows box top (bottom - top) left (right - left) grid) [
                  | none ↦ none
                  | some grid' ↦ some (record sized { g_tile_size_y = some size_x }, grid')
                ]
          ]
        ]
      ]

  unfoldable pub add_collision_in_map :
      ℕ → ℕ → List (FloatRect D) → TileSizes × Grid D → Option (TileSizes × Grid D)
  unfolding add_object
  add_collision_in_map tile_x tile_y [] state = some state
  add_collision_in_map tile_x tile_y (box ∷ boxes) state =
      elim (add_object tile_x tile_y box state) [
        | none ↦ none
        | some state' ↦ add_collision_in_map tile_x tile_y boxes state'
      ]

  unfoldable pub add_layers :
      TmxMap D → List (Layer D) → TileSizes × Grid D → Option (TileSizes × Grid D)
  unfolding add_collision_in_map
  add_layers map [] state = some state
  add_layers map (other_layer ∷ layers) state = add_layers map layers state
  add_layers map (object_group names boxes ∷ layers) state =
      let added = add_collision_in_map map.tile_size_x map.tile_size_y boxes state in
      elim (is_collision_layer names) [
        | false ↦ add_layers map layers state
        | true ↦ elim added [ none ↦ none | some state' ↦ add_layers map layers state' ]
      ]

  -- `map` is what the library loads; with none the elements stay as they are.
  unfoldable pub build_map_from_tmx :
      Option (TmxMap D) → TileSizes × Grid D → Option (TileSizes × Grid D)
  unfolding add_layers
  build_map_from_tmx none state = some state
  build_map_from_tmx (some map) (sizes, grid) =
      add_layers map map.layers
        (sizes, replicate map.tile_count_y (replicate map.tile_count_x new_element))
