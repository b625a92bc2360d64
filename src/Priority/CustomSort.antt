-- ===== src/Priority/CustomSort.antt =====
-- What the customSort of services/arena/src/fightingPit/PriorityOrderList.cpp returns, and when.
use fy_s.Common.{
  ℕ, zero, suc, ◌+◌, ◌-◌, ◌≤◌, ◌<◌, ◌≡◌, ◌≢◌, refl, sym, subst, ap, ◌∙◌, inl, inr, Bool, true, some,
  List, [], ◌∷◌, ◌++◌, arith, le→leb, gt→leb, length, count, take, drop, take-append-drop,
  Bool-cases, Option-cases, some_eq,
}
use fy_s.Common.Int.{ℤ, pos, eqb_ℤ, eq_of_parts}
use mathlib.Core.List.{reverse}
use native.Mathlib.Decide.{dec_le}
use native.Mathlib.Numerals.{add-one}
use fy_s.CommonTypes.{PriorityElem}
use fy_s.Priority.State.{done, adjacent_from, adjacent_find, reverse_range}
use fy_s.Priority.Sort.{differ, misordered, reorder_equal, custom_sort}
use fy_s.Priority.Order.{
  AtLeast, IsSorted, SameElems, SortLaws, AllSpeed, AllSpeed-split, AllSpeed-reverse, AtLeast-drop,
  IsSorted-drop, AtLeast-append, IsSorted-append, count-append, count-reverse,
}

take-nil : (n : ℕ) → take {A = PriorityElem} n [] ≡ []
take-nil zero = refl
take-nil (suc n) = refl

-- The first elements, one after the other.
take-split :
    (f n : ℕ) (xs : List PriorityElem) → f ≤ n → take f xs ++ take (n - f) (drop f xs) ≡ take n xs
take-split zero n xs le = ap (λ k. take k xs) (omega arith)
take-split (suc f) zero xs le = absurd (omega arith)
take-split (suc f) (suc n) [] le = take-nil (suc n - suc f)
take-split (suc f) (suc n) (x ∷ xs) le =
    ap (λ l. x ∷ l)
      (ap (λ k. take f xs ++ take k (drop f xs)) (omega arith) ∙ take-split f n xs (omega arith))

eqb_eq : (a b : ℤ) → eqb_ℤ a b ≡ true → a ≡ b
eqb_eq a b e = eq_of_parts a b (ground arith)

-- Up to the first change of speed, all speeds are that of the first element.
first_block :
    (i t : ℕ) (x : PriorityElem) (ys : List PriorityElem)
    → adjacent_from differ i x ys ≡ some t
    → (i ≤ t) × AllSpeed x.speed (take (suc (t - i)) (x ∷ ys))
unfolding adjacent_from
first_block i t x [] e = absurd (cc)
first_block i t x (y ∷ ys) e = elim (Bool-cases (eqb_ℤ x.speed y.speed)) [
  | inl same ↦
      let (lo, block) = first_block (suc i) t y ys (rw same at e) in
      let speeds = eqb_eq x.speed y.speed same in
      (
        omega arith,
        (
          refl,
          subst (λ k. AllSpeed x.speed (take k (y ∷ ys))) {x = suc (t - suc i)} (omega arith)
              (subst (λ v. AllSpeed v (take (suc (t - suc i)) (y ∷ ys))) (sym speeds) block),
        ),
      )
  | inr changed ↦
      let here : i ≡ t = some_eq (rw changed at e) in
      let none_left : 0 ≡ t - i = omega arith in
      (omega arith, (refl, subst (λ k. AllSpeed x.speed (take k (y ∷ ys))) none_left tt))
]

done_eq : {xs ys : List PriorityElem} → done xs ≡ done ys → xs ≡ ys
done_eq e = cc

module _ (v : ℤ) (xs : List PriorityElem) (f n : ℕ) (le : f ≤ n) where
  -- The range, and the list with the range turned round.
  abbrev mid : List PriorityElem
  mid = take (n - f) (drop f xs)

  abbrev turned : List PriorityElem
  turned = take f xs ++ (reverse mid ++ drop n xs)

  turned-IsSorted : AllSpeed v (take n xs) → AtLeast v (drop n xs) → IsSorted xs → IsSorted turned
  turned-IsSorted block above s =
      let (before, inside) =
        AllSpeed-split v (take f xs) mid (subst (AllSpeed v) (sym (take-split f n xs le)) block) in
      let after =
        IsSorted-append v (reverse mid) (drop n xs) (AllSpeed-reverse v mid inside) above
          (IsSorted-drop n xs s) in
      let least =
        AtLeast-append v (reverse mid) (drop n xs) (AllSpeed-reverse v mid inside) above in
      IsSorted-append v (take f xs) (reverse mid ++ drop n xs) before least after

  turned-SameElems : SameElems turned xs
  turned-SameElems p = omega (
    arith,
    count-append p (take f xs) (reverse mid ++ drop n xs),
    count-append p (reverse mid) (drop n xs),
    count-reverse p mid,
    count-append p (take f xs) mid,
    count-append p (take n xs) (drop n xs),
    ap (count p) (take-split f n xs le),
    ap (count p) (take-append-drop n xs),
  )

  reverse_range-turned : reverse_range xs f n ≡ done turned
  unfolding reverse_range
  reverse_range-turned = rw (le→leb f n le)

reverse_range-undefined :
    (xs : List PriorityElem) (f n : ℕ) (ys : List PriorityElem)
    → n < f
    → reverse_range xs f n ≢ done ys
unfolding reverse_range
reverse_range-undefined xs f n ys lt = rw (gt→leb f n lt) (λ e. cc)

no_neighbours : (t : ℕ) → adjacent_find {A = PriorityElem} differ [] ≢ some t
unfolding adjacent_find
no_neighbours t e = cc

-- The range that `customSort` turns round lies within the first block of equal speeds.
block_turned :
    (x : PriorityElem) (xs ys : List PriorityElem) (f t : ℕ)
    → IsSorted (x ∷ xs)
    → adjacent_find differ (x ∷ xs) ≡ some t
    → reverse_range (x ∷ xs) f (t + 1) ≡ done ys
    → IsSorted ys × SameElems ys (x ∷ xs)
unfolding adjacent_find
block_turned x xs ys f t s d e = elim (dec_le f (suc t)) [
  | yes le ↦
      let same =
        done_eq (sym (reverse_range-turned x.speed (x ∷ xs) f (suc t) le) ∙ rw add-one at e) in
      let block =
        subst (λ (k : ℕ). AllSpeed x.speed (take k (x ∷ xs))) {x = suc (t - 0)} {y = suc t}
          (omega arith) (first_block 0 t x xs d).1 in
      let above = AtLeast-drop x.speed t xs s.0 in
      subst (λ l. IsSorted l × SameElems l (x ∷ xs)) same
        (
          turned-IsSorted x.speed (x ∷ xs) f (suc t) le block above s,
          turned-SameElems x.speed (x ∷ xs) f (suc t) le,
        )
  | no gt ↦ absurd (reverse_range-undefined (x ∷ xs) f (t + 1) ys (omega arith) e)
]

reorder_equal-IsSorted :
    (base xs ys : List PriorityElem)
    → IsSorted xs
    → reorder_equal base xs ≡ done ys
    → IsSorted ys × SameElems ys xs
unfolding reorder_equal
reorder_equal-IsSorted base xs ys s e = elim (Option-cases (adjacent_find (misordered base) xs)) [
  | inl n ↦ unchanged xs ys s (rw (n, reorder_equal) at e)
  | inr (f, found) ↦ elim (Option-cases (adjacent_find differ xs)) [
    | inl n ↦ unchanged xs ys s (rw (found, n, reorder_equal) at e)
    | inr (t, swap) ↦ turned_at xs ys f t s swap (rw (found, swap, reorder_equal) at e)
  ]
]
  where
    unchanged :
        (xs ys : List PriorityElem)
        → IsSorted xs
        → done xs ≡ done ys
        → IsSorted ys × SameElems ys xs
    unchanged xs ys s e = subst (λ l. IsSorted l × SameElems l xs) (done_eq e) (s, λ p. refl)

    turned_at :
        (xs ys : List PriorityElem) (f t : ℕ)
        → IsSorted xs
        → adjacent_find differ xs ≡ some t
        → reverse_range xs f (t + 1) ≡ done ys
        → IsSorted ys × SameElems ys xs
    turned_at [] ys f t s d e = absurd (no_neighbours t d)
    turned_at (x ∷ xs) ys f t s d e = block_turned x xs ys f t s d e

-- With a `sort` that sorts, what `customSort` returns is sorted by speed, and holds the elements of
-- `_analyzedList`, each as often: the order of equal speeds is all that it changes after the sort.
pub custom_sort-IsSorted :
    (sort : List PriorityElem → List PriorityElem) (base analyzed ys : List PriorityElem)
    → SortLaws sort
    → custom_sort sort base analyzed ≡ done ys
    → IsSorted ys × SameElems ys analyzed
unfolding custom_sort
custom_sort-IsSorted sort base analyzed ys laws e =
    let (s, same) = reorder_equal-IsSorted base (sort analyzed) ys (laws.sorted analyzed) e in
    (s, λ p. same p ∙ laws.same analyzed p)

adjacent_from-lt :
    (p : PriorityElem → PriorityElem → Bool) (i t : ℕ) (x : PriorityElem) (ys : List PriorityElem)
    → adjacent_from p i x ys ≡ some t
    → t < i + length ys
unfolding adjacent_from
adjacent_from-lt p i t x [] e = absurd (cc)
adjacent_from-lt p i t x (y ∷ ys) e = elim (Bool-cases (p x y)) [
  | inl here ↦ let first : i ≡ t = some_eq (rw here at e) in omega arith
  | inr later ↦ omega (arith, adjacent_from-lt p (suc i) t y ys (rw later at e))
]

adjacent_find-lt :
    (p : PriorityElem → PriorityElem → Bool) (t : ℕ) (xs : List PriorityElem)
    → adjacent_find p xs ≡ some t
    → t + 1 < length xs
unfolding adjacent_find
adjacent_find-lt p t [] e = absurd (cc)
adjacent_find-lt p t (x ∷ xs) e = omega (arith, adjacent_from-lt p 0 t x xs e)

length-count : (xs : List PriorityElem) → count (λ e. true) xs ≡ length xs
length-count [] = refl
length-count (x ∷ xs) = ap suc (length-count xs)

pub length-SameElems : (xs ys : List PriorityElem) → SameElems xs ys → length xs ≡ length ys
length-SameElems xs ys same = sym (length-count xs) ∙ same (λ e. true) ∙ length-count ys

-- Among at most three elements the range that `customSort` turns round is a valid one, so it returns.
pub custom_sort_defined :
    (sort : List PriorityElem → List PriorityElem) (base analyzed : List PriorityElem)
    → SortLaws sort
    → length analyzed ≤ 3
    → (ys : List PriorityElem) × (custom_sort sort base analyzed ≡ done ys)
unfolding custom_sort reorder_equal
custom_sort_defined sort base analyzed laws few =
    elim (Option-cases (adjacent_find (misordered base) xs)) [
      | inl n ↦ (xs, rw (n, custom_sort, reorder_equal))
      | inr (f, found) ↦ elim (Option-cases (adjacent_find differ xs)) [
        | inl n ↦ (xs, rw (found, n, custom_sort, reorder_equal))
        | inr (t, swap) ↦ (
          turned (pos 0) xs f (t + 1) (early f t found),
          rw (found, swap, custom_sort, reorder_equal)
              (reverse_range-turned (pos 0) xs f (t + 1) (early f t found)),
        )
      ]
    ]
  where
    xs : List PriorityElem
    xs = sort analyzed

    early : (f t : ℕ) → adjacent_find (misordered base) xs ≡ some f → f ≤ t + 1
    early f t found = omega (
      arith,
      adjacent_find-lt (misordered base) f xs found,
      length-SameElems xs analyzed (laws.same analyzed),
    )
