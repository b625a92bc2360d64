-- ===== src/Priority/Unsnoc.antt =====
-- The last element of a list, as `back` of services/arena/src/fightingPit/PriorityOrderList.cpp reads
-- it.
use fy_s.Common.{◌≡◌, refl, Option, some, List, [], ◌∷◌, ◌++◌, Option-cases, inl, inr}
use mathlib.Core.Option.{none}
use fy_s.CommonTypes.{PriorityElem}
use fy_s.Priority.State.{unsnoc}

pub unsnoc-append :
    (xs : List PriorityElem) (x : PriorityElem) → unsnoc (xs ++ x ∷ []) ≡ some (xs, x)
unsnoc-append [] x = refl
unsnoc-append (y ∷ ys) x = rw (unsnoc-append ys x)

unsnoc-none : (xs : List PriorityElem) → unsnoc xs ≡ none → xs ≡ []
unsnoc-none [] e = refl
unsnoc-none (x ∷ xs) e = elim (Option-cases (unsnoc xs)) [
  | inl n ↦
      let e' : ◌≡◌ {A = Option (List PriorityElem × PriorityElem)} (some ([], x)) (none) =
        rw n at e in
      absurd (cc)
  | inr ((ys, y), h) ↦
      let e' : ◌≡◌ {A = Option (List PriorityElem × PriorityElem)} (some (x ∷ ys, y)) (none) =
        rw h at e in
      absurd (cc)
]

pub unsnoc-some :
    (xs ys : List PriorityElem) (y : PriorityElem) → unsnoc xs ≡ some (ys, y) → xs ≡ ys ++ y ∷ []
unsnoc-some [] ys y e = absurd (cc)
unsnoc-some (x ∷ xs) ys y e = elim (Option-cases (unsnoc xs)) [
  | inl n ↦
      let e' : ◌≡◌ {A = Option (List PriorityElem × PriorityElem)} (some ([], x)) (some (ys, y)) =
        rw n at e in
      let empty = unsnoc-none xs n in cc
  | inr ((zs, z), h) ↦
      let e' : ◌≡◌ {A = Option (List PriorityElem × PriorityElem)} (some (x ∷ zs, z))
          (some (ys, y)) =
        rw h at e in
      let same = unsnoc-some xs zs z h in cc
]
