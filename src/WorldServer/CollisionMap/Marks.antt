-- ===== src/WorldServer/CollisionMap/Marks.antt =====
-- The loops of `addCollisionInMap` in services/worldserver/src/engine/CollisionMap.cpp over the
-- elements of one object.
use fy_s.Common.{
  ℕ, zero, suc, ◌+◌, ◌≤◌, ◌<◌, ◌≡◌, refl, sym, ap, ◌∙◌, Bool, true, false, ◌&&◌, Option, some, List,
  set, get_elem?, ◌≢◌, ◌⊎◌, Option-cases, length, if◌then◌else◌, ltb, leb, ◌==◌, arith, Bool-cases,
  inl, inr, ==_iff, get_elem?-set_self, get_elem?-set_ne, lt_of_get_elem?,
}
use mathlib.Core.Option.{none}
use fy_s.WorldServer.Double.{Double}
use fy_s.WorldServer.CollisionMap.{
  FloatRect, MapElement, Grid, block, add_collision, set_type, mark, mark_columns, mark_rows,
}

abbrev pub inside : ℕ → ℕ → ℕ → Bool
inside first last k = leb first k && ltb k last

module _ {D : Type 0} where
  abbrev pub in_row : Option (List (MapElement D)) → ℕ → Option (MapElement D)
  in_row none i = none
  in_row (some row) i = get_elem? row i

  abbrev pub cell : Grid D → ℕ → ℕ → Option (MapElement D)
  cell grid j i = in_row (get_elem? grid j) i

  abbrev pub marked : FloatRect D → MapElement D → MapElement D
  marked box e = add_collision box (set_type block e)

  abbrev pub marked_if : Bool → FloatRect D → Option (MapElement D) → Option (MapElement D)
  marked_if covered box none = none
  marked_if covered box (some e) = some (if covered then marked box e else e)

  -- Exactly the elements that are covered are marked.
  abbrev pub Marks : (ℕ → ℕ → Bool) → FloatRect D → Grid D → Grid D → Type 0
  Marks covered box grid grid' =
      (j i : ℕ) → cell grid' j i ≡ marked_if (covered j i) box (cell grid j i)

  abbrev pub IsIn : Grid D → ℕ → ℕ → Type 0
  IsIn grid j i = (e : MapElement D) × (cell grid j i ≡ some e)

  pub Marks-IsIn :
      (covered : ℕ → ℕ → Bool) (box : FloatRect D) (grid grid' : Grid D) (j i : ℕ)
      → Marks covered box grid grid'
      → IsIn grid j i
      → IsIn grid' j i
  Marks-IsIn covered box grid grid' j i m (e, at) =
      ((if covered j i then marked box e else e), m j i ∙ ap (marked_if (covered j i) box) at)

  marked_if-false : (box : FloatRect D) (o : Option (MapElement D)) → marked_if false box o ≡ o
  marked_if-false box none = refl
  marked_if-false box (some e) = refl

  pub Marks-none :
      (covered : ℕ → ℕ → Bool) (box : FloatRect D) (grid : Grid D)
      → ((j i : ℕ) → covered j i ≡ false)
      → Marks covered box grid grid
  Marks-none covered box grid h j i =
      sym (ap (λ c. marked_if c box (cell grid j i)) (h j i) ∙ marked_if-false box (cell grid j i))

  -- Two disjoint markings, one after the other.
  pub Marks-then :
      (a b c : ℕ → ℕ → Bool) (box : FloatRect D) (g g' g'' : Grid D)
      → ((j i : ℕ) → ((a j i ≡ false) × (c j i ≡ b j i)) ⊎ ((b j i ≡ false) × (c j i ≡ a j i)))
      → Marks a box g g'
      → Marks b box g' g''
      → Marks c box g g''
  Marks-then a b c box g g' g'' split m m' j i = elim (split j i) [
    | inl (off, same) ↦
        m' j i
        ∙ ap (marked_if (b j i) box)
            (m j i ∙ ap (λ x. marked_if x box (cell g j i)) off ∙ marked_if-false box (cell g j i))
        ∙ ap (λ x. marked_if x box (cell g j i)) (sym same)
    | inr (off, same) ↦
        m' j i
        ∙ ap (λ x. marked_if x box (cell g' j i)) off
        ∙ marked_if-false box (cell g' j i)
        ∙ m j i
        ∙ ap (λ x. marked_if x box (cell g j i)) (sym same)
  ]

ne_of_test : (i j : ℕ) → (i == j) ≡ false → j ≢ i
ne_of_test i j h e = ground (arith, e)

columns_split :
    (y x n j i : ℕ)
    → ((((j == y) && (i == x)) ≡ false)
        × (((j == y) && inside x (x + suc n) i) ≡ ((j == y) && inside (suc x) (suc x + n) i)))
      ⊎ ((((j == y) && inside (suc x) (suc x + n) i) ≡ false)
          × (((j == y) && inside x (x + suc n) i) ≡ ((j == y) && (i == x))))
columns_split y x n j i = elim (Bool-cases (i == x)) [
  | inl same ↦ inr (ground (arith, same), ground (arith, same))
  | inr other ↦ inl (ground (arith, other), ground (arith, other))
]

rows_split :
    (y n j : ℕ) (c : Bool)
    → ((((j == y) && c) ≡ false)
        × ((inside y (y + suc n) j && c) ≡ (inside (suc y) (suc y + n) j && c)))
      ⊎ (((inside (suc y) (suc y + n) j && c) ≡ false)
          × ((inside y (y + suc n) j && c) ≡ ((j == y) && c)))
rows_split y n j c = elim (Bool-cases (j == y)) [
  | inl same ↦ inr (ground (arith, same), ground (arith, same))
  | inr other ↦ inl (ground (arith, other), ground (arith, other))
]

module _ {D : Type 0} (d : Double D) where
  mark-Marks :
      (box : FloatRect D) (y x : ℕ) (grid : Grid D)
      → IsIn grid y x
      → (grid' : Grid D) × (mark d box y x grid ≡ some grid')
        × Marks (λ j i. (j == y) && (i == x)) box grid grid'
  unfolding mark
  mark-Marks box y x grid (e, at) = elim (Option-cases (get_elem? grid y)) [
    | inl no_row ↦ absurd (cc (sym (ap (λ r. in_row r x) no_row) ∙ at))
    | inr (row, here) ↦
        let own : get_elem? row x ≡ some e = ap (λ r. in_row r x) (sym here) ∙ at in
        let row' = set row x (marked box e) in
        let first = lt_of_get_elem? grid y row here in
        let second = lt_of_get_elem? row x e own in
        (
          set grid y row',
          rw (here, mark, own) refl,
          λ j i. elim (Bool-cases (j == y)) [
            | inr other ↦
                ap (λ r. in_row r i) (get_elem?-set_ne grid row' (ne_of_test j y other))
                ∙ sym (rw other (marked_if-false box (cell grid j i)))
            | inl same ↦
                let one : j ≡ y = (==_iff j y).0 same in
                rw same (
                  ap (λ k. cell (set grid y row') k i) one
                  ∙ ap (λ r. in_row r i) (get_elem?-set_self grid y row' first)
                  ∙ marked_row row x i e own second
                  ∙ ap (marked_if (i == x) box)
                      (sym (ap (λ k. cell grid k i) one ∙ ap (λ r. in_row r i) here)))
          ],
        )
  ]
    where
      marked_row :
          (row : List (MapElement D)) (x i : ℕ) (e : MapElement D)
          → get_elem? row x ≡ some e
          → x < length row
          → get_elem? (set row x (marked box e)) i ≡ marked_if (i == x) box (get_elem? row i)
      marked_row row x i e own lt = elim (Bool-cases (i == x)) [
        | inr other ↦
            get_elem?-set_ne row (marked box e) (ne_of_test i x other)
            ∙ sym (rw other (marked_if-false box (get_elem? row i)))
        | inl same ↦
            let one : i ≡ x = (==_iff i x).0 same in
            rw same (
              ap (get_elem? (set row x (marked box e))) one
              ∙ get_elem?-set_self row x (marked box e) lt
              ∙ ap (marked_if true box) (sym (ap (get_elem? row) one ∙ own)))
      ]

  pub mark_columns-Marks :
      (box : FloatRect D) (y x n : ℕ) (grid : Grid D)
      → ((i : ℕ) → x ≤ i → i < x + n → IsIn grid y i)
      → (grid' : Grid D) × (mark_columns d box y x n grid ≡ some grid')
        × Marks (λ j i. (j == y) && inside x (x + n) i) box grid grid'
  unfolding mark_columns
  mark_columns-Marks box y x zero grid h = (
    grid,
    refl,
    Marks-none (λ j i. (j == y) && inside x (x + 0) i) box grid (λ j i. ground arith),
  )
  mark_columns-Marks box y x (suc n) grid h =
      let (g, done, m) = mark-Marks box y x grid (h x (omega arith) (omega arith)) in
      let first = λ (j i : ℕ). (j == y) && (i == x) in
      let others = mark_columns-Marks box y (suc x) n g (λ i le lt.
        Marks-IsIn first box grid g y i m (h i (omega (arith, le)) (omega (arith, lt)))) in
      (
        others.0,
        rw (done, mark_columns) others.1,
        Marks-then first (λ j i. (j == y) && inside (suc x) (suc x + n) i)
            (λ j i. (j == y) && inside x (x + suc n) i) box grid g others.0
            (λ j i. columns_split y x n j i) m others.2,
      )

  pub mark_rows-Marks :
      (box : FloatRect D) (y n x m : ℕ) (grid : Grid D)
      → ((j i : ℕ) → y ≤ j → j < y + n → x ≤ i → i < x + m → IsIn grid j i)
      → (grid' : Grid D) × (mark_rows d box y n x m grid ≡ some grid')
        × Marks (λ j i. inside y (y + n) j && inside x (x + m) i) box grid grid'
  unfolding mark_rows
  mark_rows-Marks box y zero x m grid h = (
    grid,
    refl,
    Marks-none (λ j i. inside y (y + 0) j && inside x (x + m) i) box grid (λ j i. ground arith),
  )
  mark_rows-Marks box y (suc n) x m grid h =
      let (g, done, marks) =
        mark_columns-Marks box y x m grid (λ i le lt. h y i (omega arith) (omega arith) le lt) in
      let first = λ (j i : ℕ). (j == y) && inside x (x + m) i in
      let others = mark_rows-Marks box (suc y) n x m g (λ j i lo hi le lt.
        Marks-IsIn first box grid g j i marks
          (h j i (omega (arith, lo)) (omega (arith, hi)) le lt)) in
      (
        others.0,
        rw (done, mark_rows) others.1,
        Marks-then first (λ j i. inside (suc y) (suc y + n) j && inside x (x + m) i)
            (λ j i. inside y (y + suc n) j && inside x (x + m) i) box grid g others.0
            (λ j i. rows_split y n j (inside x (x + m) i)) marks others.2,
      )
