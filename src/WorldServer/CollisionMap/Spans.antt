-- ===== src/WorldServer/CollisionMap/Spans.antt =====
-- The tiles of a box, and what one round of `addCollisionInMap` of
-- services/worldserver/src/engine/CollisionMap.cpp does with them.
use fy_s.Common.{
  ℕ, ◌+◌, ◌-◌, ◌<◌, ◌≡◌, refl, ap, ◌∙◌, Bool, true, ◌&&◌, some, ltb, arith, Bool-cases, inl, inr,
}
use fy_s.WorldServer.Double.{Double}
use fy_s.WorldServer.CollisionMap.{
  FloatRect, Grid, TileSizes, TmxMap, first_or, tile, add_object, mark_rows,
}
use fy_s.WorldServer.CollisionMap.Marks.{
  inside, cell, marked_if, Marks, Marks-none, IsIn, mark_rows-Marks,
}

-- The tiles of a box: from the first row on up to the second one, and so for the columns.
pub record Span : Type 0 where
  pub top : ℕ
  pub bottom : ℕ
  pub left : ℕ
  pub right : ℕ

abbrev pub within : Span → ℕ → ℕ → Bool
within s j i = inside s.top s.bottom j && inside s.left s.right i

module _ {D : Type 0} (d : Double D) where
  -- The tiles of a box, with tiles of that width and height.
  pub record Spans (width height : ℕ) (box : FloatRect D) (s : Span) : Type 0 where
    pub first_row : tile d box.top height ≡ some s.top
    pub last_row : tile d (d.add box.top box.height) height ≡ some s.bottom
    pub first_column : tile d box.left width ≡ some s.left
    pub last_column : tile d (d.add box.left box.width) width ≡ some s.right

  -- Sizes that are used for the rows and columns.
  abbrev pub Uses : ℕ → ℕ → TmxMap D → TileSizes → Type 0
  Uses width height map sizes =
      (first_or sizes.g_tile_size_x map.tile_size_y ≡ height)
      × (first_or sizes.g_tile_size_y map.tile_size_x ≡ width)

  -- Every element of that many rows and columns is there.
  abbrev pub Holds : ℕ → ℕ → Grid D → Type 0
  Holds rows columns grid = (j i : ℕ) → j < rows → i < columns → IsIn grid j i

  add_object_full :
      (map : TmxMap D) (box : FloatRect D) (s : Span) (sizes : TileSizes) (grid grid' : Grid D)
      → Uses map.tile_size_x map.tile_size_y map sizes
      → Spans map.tile_size_x map.tile_size_y box s
      → ltb s.top s.bottom ≡ true
      → mark_rows d box s.top (s.bottom - s.top) s.left (s.right - s.left) grid ≡ some grid'
      → add_object d map.tile_size_x map.tile_size_y box (sizes, grid)
        ≡ some (
          record { g_tile_size_x = some map.tile_size_y; g_tile_size_y = some map.tile_size_x },
          grid',
        )
  unfolding add_object
  add_object_full map box s sizes grid grid' (uses_y, uses_x) spans full done =
      rw
        (
          add_object, uses_y, spans.first_row, uses_y, spans.last_row, full, uses_x,
          spans.first_column, uses_x, spans.last_column, done, uses_y, uses_x,
        )
        refl

  pub add_object-Marks :
      (map : TmxMap D) (box : FloatRect D) (s : Span) (sizes : TileSizes) (grid : Grid D)
      → Uses map.tile_size_x map.tile_size_y map sizes
      → Spans map.tile_size_x map.tile_size_y box s
      → Holds s.bottom s.right grid
      → (sizes' : TileSizes) × (grid' : Grid D) × (add_object d map.tile_size_x map.tile_size_y box
            (sizes, grid)
          ≡ some (sizes', grid'))
        × Uses map.tile_size_x map.tile_size_y map sizes'
        × Marks (within s) box grid grid'
  unfolding add_object
  add_object-Marks map box s sizes grid (uses_y, uses_x) spans holds =
      elim (Bool-cases (ltb s.top s.bottom)) [
        | inr empty ↦ (
          record sizes { g_tile_size_x = some map.tile_size_y },
          grid,
          rw (add_object, uses_y, spans.first_row, uses_y, spans.last_row, empty, uses_y) refl,
          (refl, uses_x),
          Marks-none (within s) box grid (λ j i. ground (arith, empty)),
        )
        | inl full ↦
            let (grid', done, marks) =
              mark_rows-Marks d box s.top (s.bottom - s.top) s.left (s.right - s.left) grid
                (λ j i lo hi le lt. holds j i (ground (arith, full)) (ground (arith, full))) in
            (
              record { g_tile_size_x = some map.tile_size_y; g_tile_size_y = some map.tile_size_x },
              grid',
              add_object_full map box s sizes grid grid' (uses_y, uses_x) spans full done,
              (refl, refl),
              λ j i. marks j i ∙ ap (λ c. marked_if c box (cell grid j i)) (spanned s j i full),
            )
      ]
    where
      spanned :
          (s : Span) (j i : ℕ)
          → ltb s.top s.bottom ≡ true
          → (inside s.top (s.top + (s.bottom - s.top)) j
              && inside s.left (s.left + (s.right - s.left)) i)
            ≡ within s j i
      spanned s j i full = ground (arith, full)
