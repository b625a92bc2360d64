-- ===== src/Priority/Tests.antt =====
-- Runs of services/arena/src/fightingPit/PriorityOrderList.cpp with an insertion sort for `std::sort`.
use fy_s.Common.{
  ℕ, ◌≡◌, refl, ◌∙◌, false, List, [], ◌∷◌, arith, if◌then◌else◌, Bool-cases, inl, inr,
}
use fy_s.Common.Int.{ℤ, pos, ◌≤ℤ◌, ◌+ℤ◌, ◌-ℤ◌}
use mathlib.Core.List.{reverse}
use fy_s.CommonTypes.{PriorityElem, slower}
use fy_s.Priority.State.{PriorityOrderList, done, undefined, adjacent_find, reverse_range}
use fy_s.Priority.Sort.{custom_sort}
use fy_s.Priority.Turns.{get_computed_speed, end_turn_routine}
use fy_s.Priority.Operations.{empty_order, order_of, get_next, remove_participant_from_list}
use fy_s.Priority.Order.{AtLeast, IsSorted, SameElems, SortLaws}
use fy_s.Priority.CustomSort.{custom_sort-IsSorted, custom_sort_defined}
use fy_s.Priority.Ensures.{Ensures}
use fy_s.Priority.FirstRound.{take_turns, first_round}
use fy_s.Priority.Removal.{AllOther, removed_never_next}

abbrev insert : PriorityElem → List PriorityElem → List PriorityElem
insert x [] = x ∷ []
insert x (y ∷ ys) = let rest = insert x ys in if slower y x then y ∷ rest else x ∷ y ∷ ys

abbrev pub isort : List PriorityElem → List PriorityElem
isort [] = []
isort (x ∷ xs) = insert x (isort xs)

AtLeast-le : (v w : ℤ) (xs : List PriorityElem) → v ≤ℤ w → AtLeast w xs → AtLeast v xs
AtLeast-le v w [] le h = tt
AtLeast-le v w (x ∷ xs) le h = (omega arith, AtLeast-le v w xs le h.1)

insert-AtLeast :
    (v : ℤ) (x : PriorityElem) (xs : List PriorityElem)
    → v ≤ℤ x.speed
    → AtLeast v xs
    → AtLeast v (insert x xs)
insert-AtLeast v x [] le h = (le, tt)
insert-AtLeast v x (y ∷ ys) le h = elim (Bool-cases (slower y x)) [
  | inl t ↦ rw t (h.0, insert-AtLeast v x ys le h.1)
  | inr f ↦ rw f (le, h)
]

insert-IsSorted : (x : PriorityElem) (xs : List PriorityElem) → IsSorted xs → IsSorted (insert x xs)
insert-IsSorted x [] s = (tt, tt)
insert-IsSorted x (y ∷ ys) s = elim (Bool-cases (slower y x)) [
  | inl t ↦ rw t (insert-AtLeast y.speed x ys (ground (arith, t)) s.0, insert-IsSorted x ys s.1)
  | inr f ↦
      let le : x.speed ≤ℤ y.speed = ground (arith, f) in
      rw f ((le, AtLeast-le x.speed y.speed ys le s.0), s)
]

insert-SameElems : (x : PriorityElem) (xs : List PriorityElem) → SameElems (insert x xs) (x ∷ xs)
insert-SameElems x [] p = refl
insert-SameElems x (y ∷ ys) p = elim (Bool-cases (slower y x)) [
  | inl t ↦ rw t (ground (arith, insert-SameElems x ys p))
  | inr f ↦ rw f refl
]

isort-IsSorted : (xs : List PriorityElem) → IsSorted (isort xs)
isort-IsSorted [] = tt
isort-IsSorted (x ∷ xs) = insert-IsSorted x (isort xs) (isort-IsSorted xs)

isort-SameElems : (xs : List PriorityElem) → SameElems (isort xs) xs
isort-SameElems [] p = refl
isort-SameElems (x ∷ xs) p = insert-SameElems x (isort xs) p ∙ ground (arith, isort-SameElems xs p)

pub isort-SortLaws : SortLaws isort
isort-SortLaws = record { sorted = isort-IsSorted; same = isort-SameElems }

abbrev pub who : ℕ → ℕ → PriorityElem
who id speed = record { id = id; speed = pos speed; is_contender = false }

abbrev pub three : List PriorityElem
three = who 1 5 ∷ who 2 9 ∷ who 3 7 ∷ []

custom_sort_test : custom_sort isort three three ≡ done (who 1 5 ∷ who 3 7 ∷ who 2 9 ∷ [])
unfolding custom_sort adjacent_find
custom_sort_test = refl

-- Two equal speeds behind two different ones: the range to turn round ends before it begins.
custom_sort_undefined :
    custom_sort isort
      (who 1 1 ∷ who 2 2 ∷ who 3 9 ∷ who 4 8 ∷ [])
      (who 1 1 ∷ who 2 2 ∷ who 3 3 ∷ who 4 3 ∷ [])
    ≡ undefined
unfolding custom_sort adjacent_find reverse_range
custom_sort_undefined = refl

custom_sort-IsSorted_example :
    IsSorted (who 1 5 ∷ who 3 7 ∷ who 2 9 ∷ []) × SameElems (who 1 5 ∷ who 3 7 ∷ who 2 9 ∷ []) three
custom_sort-IsSorted_example =
    custom_sort-IsSorted isort three three (who 1 5 ∷ who 3 7 ∷ who 2 9 ∷ []) isort-SortLaws
      custom_sort_test

custom_sort_defined_example : (ys : List PriorityElem) × (custom_sort isort three three ≡ done ys)
custom_sort_defined_example = custom_sort_defined isort three three isort-SortLaws (omega arith)

first_round_example :
    (s : PriorityOrderList) × (ys : List PriorityElem) × (order_of isort 0 three ≡ done s)
    × (take_turns isort 0 0 3 s ≡ done ys)
    × IsSorted (reverse ys)
    × SameElems ys three
first_round_example = first_round isort 0 0 (who 1 5) (who 2 9 ∷ who 3 7 ∷ []) isort-SortLaws

abbrev ready : PriorityOrderList
ready = record empty_order {
  base_speed = isort three;
  analyzed_list = isort three;
  priority_list = isort three;
  current_turn = 1;
}

removed_never_next_example :
    Ensures
      (take_turns isort 1 50 5 (remove_participant_from_list ready 2))
      (AllOther isort isort-SortLaws 2)
removed_never_next_example = removed_never_next isort isort-SortLaws 2 1 50 5 ready

-- Four turns behind the removal, two of them in a turn that is calculated.
turns_test :
    take_turns isort 1 50 4 (remove_participant_from_list ready 2)
    ≡ done (who 3 7 ∷ who 1 5 ∷ who 3 2 ∷ who 1 3 ∷ [])
unfolding take_turns remove_participant_from_list get_next ◌-ℤ◌ ◌+ℤ◌ adjacent_find reverse_range
    custom_sort get_computed_speed end_turn_routine
turns_test = refl
