-- ===== src/WorldServer/CollisionMap/Elements.antt =====
-- The elements and layers of a map, and the neighbouring servers:
-- services/worldserver/include/engine/CollisionMap.hh.
use Prim.Native.String.{String}
use text.Mathlib.Text.{find?}
use fy_s.Common.{ℕ, Bool, true, false, Option, some, List, [], ◌∷◌, ◌++◌, any, if◌then◌else◌, ltb}
use mathlib.Core.Option.{none}

-- `isCollisionLayer` and `isTriggerLayer`, on the names of a layer's properties.
abbrev has_name : String → List String → Bool
has_name part names = any (λ name. elim (find? name part) [ none ↦ false | some i ↦ true ]) names

abbrev pub is_collision_layer : List String → Bool
is_collision_layer names = has_name "collision" names

abbrev pub is_trigger_layer : List String → Bool
is_trigger_layer names = has_name "trigger" names

pub data ElementType : Type 0 where
  block trigger tp_trigger no_type : ElementType

abbrev pub is_block : ElementType → Bool
is_block block = true
is_block _ = false

pub record ProximityServerAxis (D : Type 0) : Type 0 where
  pub value : D
  pub superior_to : Bool

pub record ProximityServer (D : Type 0) : Type 0 where
  pub code : String
  pub x_axis_requirement : Option (ProximityServerAxis D)
  pub y_axis_requirement : Option (ProximityServerAxis D)

-- `tmx::FloatRect`.
pub record FloatRect (D : Type 0) : Type 0 where
  pub left : D
  pub top : D
  pub width : D
  pub height : D

-- The levels of a `bitset` are the numbers of the bits that are set.
pub record MapElement (D : Type 0) : Type 0 where
  pub level : List ℕ
  pub change_level : List ℕ
  pub element_type : ElementType
  pub collisions : List (FloatRect D)

abbrev pub new_element : {D : Type 0} → MapElement D
new_element = record { level = []; change_level = []; element_type = no_type; collisions = [] }

-- `none` is the exception of a `bitset` of 4 bits.
abbrev pub set_level : {D : Type 0} → ℕ → MapElement D → Option (MapElement D)
set_level l e = if ltb l 4 then some (record e { level = l ∷ e.level }) else none

abbrev pub set_change_level : {D : Type 0} → ℕ → MapElement D → Option (MapElement D)
set_change_level l e =
    if ltb l 4 then some (record e { change_level = l ∷ e.change_level }) else none

abbrev pub set_type : {D : Type 0} → ElementType → MapElement D → MapElement D
set_type t e = record e { element_type = t }

abbrev pub add_collision : {D : Type 0} → FloatRect D → MapElement D → MapElement D
add_collision object e = record e { collisions = e.collisions ++ object ∷ [] }

abbrev pub Grid : Type 0 → Type 0
Grid D = List (List (MapElement D))

pub record CollisionMap (D : Type 0) : Type 0 where
  pub boundary_x : D × D
  pub boundary_y : D × D
  pub server_proximity : List (ProximityServer D)
  pub map_elems : Grid D

-- The `static` tile sizes of `getX` and `getY`: nothing before the first call.
pub record TileSizes : Type 0 where
  pub g_tile_size_x : Option ℕ
  pub g_tile_size_y : Option ℕ

-- A layer of a map, an object layer with the names of its properties and the boxes of its objects.
pub data Layer (D : Type 0) : Type 0 where
  object_group : List String → List (FloatRect D) → Layer D
  other_layer : Layer D

pub record TmxMap (D : Type 0) : Type 0 where
  pub tile_count_x : ℕ
  pub tile_count_y : ℕ
  pub tile_size_x : ℕ
  pub tile_size_y : ℕ
  pub layers : List (Layer D)

abbrev pub first_or : Option ℕ → ℕ → ℕ
first_or none n = n
first_or (some m) n = m
