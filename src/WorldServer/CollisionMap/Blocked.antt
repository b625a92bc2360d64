-- ===== src/WorldServer/CollisionMap/Blocked.antt =====
-- The map that `buildMapFromTmx` of services/worldserver/src/engine/CollisionMap.cpp builds, against
-- the boxes of its collision layers.
use fy_s.Common.{
  ℕ, ◌≤◌, ◌<◌, ◌≡◌, refl, sym, ap, ◌∙◌, Bool, true, false, Option, some, List, [], ◌∷◌, ◌++◌,
  replicate, filter, filter-append, get_elem?-replicate, if◌then◌else◌, arith,
}
use mathlib.Core.Option.{none}
use mathlib.Core.List.{append-nil, append_assoc}
use fy_s.WorldServer.Double.{Double}
use fy_s.WorldServer.CollisionMap.{
  FloatRect, MapElement, block, Grid, TileSizes, TmxMap, Layer, object_group, other_layer,
  is_collision_layer, new_element, first_or, tile, add_collision_in_map, add_layers,
  build_map_from_tmx,
}
use fy_s.WorldServer.CollisionMap.Marks.{in_row, cell, marked, marked_if, Marks-IsIn}
use fy_s.WorldServer.CollisionMap.Spans.{Span, within, Spans, Uses, Holds, add_object-Marks}

module _ {D : Type 0} (d : Double D) where
  -- The tiles of a box, where its coordinates have tiles.
  abbrev pub span_of : ℕ → ℕ → FloatRect D → Span
  span_of width height box = record {
    top = first_or (tile d box.top height) 0;
    bottom = first_or (tile d (d.add box.top box.height) height) 0;
    left = first_or (tile d box.left width) 0;
    right = first_or (tile d (d.add box.left box.width) width) 0;
  }

  -- The boxes lie on the tiles of a map.
  abbrev pub Placed : TmxMap D → List (FloatRect D) → Type 0
  Placed map [] = Unit
  Placed map (box ∷ boxes) =
      Spans d map.tile_size_x map.tile_size_y box (span_of map.tile_size_x map.tile_size_y box)
      × ((span_of map.tile_size_x map.tile_size_y box).bottom ≤ map.tile_count_y)
      × ((span_of map.tile_size_x map.tile_size_y box).right ≤ map.tile_count_x)
      × Placed map boxes

  -- The boxes that cover an element, in order.
  abbrev pub covering : TmxMap D → List (FloatRect D) → ℕ → ℕ → List (FloatRect D)
  covering map boxes j i =
      filter (λ box. within (span_of map.tile_size_x map.tile_size_y box) j i) boxes

  -- An element with the boxes put on it.
  abbrev pub blocked_by : List (FloatRect D) → MapElement D → MapElement D
  blocked_by [] e = e
  blocked_by (box ∷ boxes) e = record e {
    element_type = block;
    collisions = e.collisions ++ box ∷ boxes;
  }

  abbrev BlocksBy : TmxMap D → List (FloatRect D) → Grid D → Grid D → Type 0
  BlocksBy map boxes grid grid' =
      (j i : ℕ) (e : MapElement D)
      → cell grid j i ≡ some e
      → cell grid' j i ≡ some (blocked_by (covering map boxes j i) e)

  blocked_by-marked :
      (box : FloatRect D) (boxes : List (FloatRect D)) (e : MapElement D)
      → blocked_by boxes (marked box e) ≡ blocked_by (box ∷ boxes) e
  blocked_by-marked box [] e = refl
  blocked_by-marked box (next ∷ boxes) e =
      ap (λ cs. record e { element_type = block; collisions = cs })
        (append_assoc e.collisions (box ∷ []) (next ∷ boxes))

  blocked_by-append :
      (boxes more : List (FloatRect D)) (e : MapElement D)
      → blocked_by more (blocked_by boxes e) ≡ blocked_by (boxes ++ more) e
  blocked_by-append [] more e = refl
  blocked_by-append (box ∷ boxes) [] e =
      ap (λ cs. record e { element_type = block; collisions = e.collisions ++ box ∷ cs })
        (sym (append-nil boxes))
  blocked_by-append (box ∷ boxes) (next ∷ more) e =
      ap (λ cs. record e { element_type = block; collisions = cs })
        (append_assoc e.collisions (box ∷ boxes) (next ∷ more))

  blocked_cell :
      (box : FloatRect D) (boxes : List (FloatRect D)) (e : MapElement D) (covered : Bool)
      → blocked_by boxes (if covered then marked box e else e)
        ≡ blocked_by (if covered then box ∷ boxes else boxes) e
  blocked_cell box boxes e true = blocked_by-marked box boxes e
  blocked_cell box boxes e false = refl

  -- What a part of the loops does to a map: it fills the elements that are there.
  record Fills (map : TmxMap D) (boxes : List (FloatRect D)) (grid : Grid D)
      (r : Option (TileSizes × Grid D)) : Type 0 where
    sizes : TileSizes
    filled : Grid D
    done : r ≡ some (sizes, filled)
    uses : Uses d map.tile_size_x map.tile_size_y map sizes
    holds : Holds d map.tile_count_y map.tile_count_x filled
    blocks : BlocksBy map boxes grid filled

  add_collision_in_map-Fills :
      (map : TmxMap D) (boxes : List (FloatRect D)) (sizes : TileSizes) (grid : Grid D)
      → Uses d map.tile_size_x map.tile_size_y map sizes
      → Placed map boxes
      → Holds d map.tile_count_y map.tile_count_x grid
      → Fills map boxes grid
          (add_collision_in_map d map.tile_size_x map.tile_size_y boxes (sizes, grid))
  unfolding add_collision_in_map
  add_collision_in_map-Fills map [] sizes grid uses placed holds = record {
    sizes = sizes;
    filled = grid;
    done = refl;
    uses = uses;
    holds = holds;
    blocks = λ j i e at. at;
  }
  add_collision_in_map-Fills map (box ∷ boxes) sizes grid uses (spans, low, far, placed) holds =
      let s = span_of map.tile_size_x map.tile_size_y box in
      let (sizes', g, done, uses', marks) =
        add_object-Marks d map box s sizes grid uses spans
          (λ j i lt lt'. holds j i (omega (arith, lt, low)) (omega (arith, lt', far))) in
      let rest =
        add_collision_in_map-Fills map boxes sizes' g uses' placed
          (λ j i lt lt'. Marks-IsIn (within s) box grid g j i marks (holds j i lt lt')) in
      record {
        sizes = rest.sizes;
        filled = rest.filled;
        done = rw (done, add_collision_in_map) rest.done;
        uses = rest.uses;
        holds = rest.holds;
        blocks = λ j i e at.
            rest.blocks j i (if within s j i then marked box e else e)
              (marks j i ∙ ap (marked_if (within s j i) box) at)
            ∙ ap some (blocked_cell box (covering map boxes j i) e (within s j i));
      }

  -- The boxes of the objects of the collision layers.
  abbrev pub collision_boxes : List (Layer D) → List (FloatRect D)
  collision_boxes [] = []
  collision_boxes (other_layer ∷ layers) = collision_boxes layers
  collision_boxes (object_group names boxes ∷ layers) =
      let rest = collision_boxes layers in if is_collision_layer names then boxes ++ rest else rest

  Placed-append :
      (map : TmxMap D) (boxes more : List (FloatRect D))
      → Placed map (boxes ++ more)
      → Placed map boxes × Placed map more
  Placed-append map [] more h = (tt, h)
  Placed-append map (box ∷ boxes) more (spans, low, far, h) =
      let (one, other) = Placed-append map boxes more h in ((spans, low, far, one), other)

  add_layers-Fills :
      (map : TmxMap D) (layers : List (Layer D)) (sizes : TileSizes) (grid : Grid D)
      → Uses d map.tile_size_x map.tile_size_y map sizes
      → Placed map (collision_boxes layers)
      → Holds d map.tile_count_y map.tile_count_x grid
      → Fills map (collision_boxes layers) grid (add_layers d map layers (sizes, grid))
  unfolding add_layers
  add_layers-Fills map [] sizes grid uses placed holds = record {
    sizes = sizes;
    filled = grid;
    done = refl;
    uses = uses;
    holds = holds;
    blocks = λ j i e at. at;
  }
  add_layers-Fills map (other_layer ∷ layers) sizes grid uses placed holds =
      add_layers-Fills map layers sizes grid uses placed holds
  add_layers-Fills map (object_group names boxes ∷ layers) sizes grid uses placed holds =
      go
        (λ sizes' grid' uses' placed' holds'.
          add_layers-Fills map layers sizes' grid' uses' placed' holds')
        (is_collision_layer names) placed
    where
      rest : List (FloatRect D)
      rest = collision_boxes layers

      added : Option (TileSizes × Grid D)
      added = add_collision_in_map d map.tile_size_x map.tile_size_y boxes (sizes, grid)

      go :
          ((sizes' : TileSizes) (grid' : Grid D)
            → Uses d map.tile_size_x map.tile_size_y map sizes'
            → Placed map rest
            → Holds d map.tile_count_y map.tile_count_x grid'
            → Fills map rest grid' (add_layers d map layers (sizes', grid')))
          → (collides : Bool) → Placed map (if collides then boxes ++ rest else rest)
          → Fills map (if collides then boxes ++ rest else rest) grid (elim collides [
            | false ↦ add_layers d map layers (sizes, grid)
            | true ↦ elim added [ none ↦ none | some state' ↦ add_layers d map layers state' ]
          ])
      go next false h = next sizes grid uses h holds
      go next true h =
          let (here, later) = Placed-append map boxes rest h in
          let f = add_collision_in_map-Fills map boxes sizes grid uses here holds in
          let k = next f.sizes f.filled f.uses later f.holds in
          record {
            sizes = k.sizes;
            filled = k.filled;
            done = rw f.done k.done;
            uses = k.uses;
            holds = k.holds;
            blocks = λ j i e at.
                k.blocks j i (blocked_by (covering map boxes j i) e) (f.blocks j i e at)
                ∙ ap some (
                    blocked_by-append (covering map boxes j i) (covering map rest j i) e
                    ∙ ap (λ bs. blocked_by bs e)
                        (sym (
                          filter-append
                            (λ box. within (span_of map.tile_size_x map.tile_size_y box) j i) boxes
                            rest)));
          }

  new_cell :
      (rows columns j i : ℕ)
      → j < rows
      → i < columns
      → cell (replicate rows (replicate columns new_element)) j i ≡ some (new_element {D = D})
  new_cell rows columns j i lt lt' =
      ap (λ r. in_row r i) (get_elem?-replicate rows j (replicate columns new_element) lt)
      ∙ get_elem?-replicate columns i new_element lt'

  -- Where every object of the collision layers lies on the tiles of the map, the first map that a
  -- server builds has an element for each tile. It is blocked if one of these objects covers the
  -- tile, and then holds the boxes of all that do, in order; otherwise it is as it was made.
  pub map_is_blocked :
      (map : TmxMap D) (old : Grid D)
      → Placed map (collision_boxes map.layers)
      → (sizes : TileSizes) × (grid : Grid D) × (build_map_from_tmx d
            (some map)
            (record { g_tile_size_x = none; g_tile_size_y = none }, old)
          ≡ some (sizes, grid))
        × ((j i : ℕ)
            → j < map.tile_count_y
            → i < map.tile_count_x
            → cell grid j i
              ≡ some (blocked_by (covering map (collision_boxes map.layers) j i) new_element))
  unfolding build_map_from_tmx
  map_is_blocked map old placed =
      let f =
        add_layers-Fills map map.layers (record { g_tile_size_x = none; g_tile_size_y = none })
          (replicate map.tile_count_y (replicate map.tile_count_x new_element)) (refl, refl) placed
          (λ j i lt lt'. (new_element, new_cell map.tile_count_y map.tile_count_x j i lt lt')) in
      (
        f.sizes,
        f.filled,
        f.done,
        λ j i lt lt'.
            f.blocks j i new_element (new_cell map.tile_count_y map.tile_count_x j i lt lt'),
      )
