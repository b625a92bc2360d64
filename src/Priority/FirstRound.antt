-- ===== src/Priority/FirstRound.antt =====
-- The first round of turns of a list that services/arena/src/fightingPit/PriorityOrderList.cpp
-- constructs.
use fy_s.Common.{
  ℕ, zero, suc, ◌<◌, ◌≡◌, refl, sym, ap, ◌∙◌, false, some, List, [], ◌∷◌, arith, length, is_empty,
}
use mathlib.Core.List.{reverse, reverse-append, reverse-reverse}
use fy_s.CommonTypes.{PriorityElem}
use fy_s.Priority.State.{PriorityOrderList, Outcome, done, ◌>>=◌, unsnoc}
use fy_s.Priority.Operations.{empty_order, order_of, get_next}
use fy_s.Priority.Unsnoc.{unsnoc-append}
use fy_s.Priority.Order.{IsSorted, SameElems, SortLaws, count-reverse}
use fy_s.Priority.CustomSort.{length-SameElems}

pub not_empty : (xs : List PriorityElem) → 0 < length xs → is_empty xs ≡ false
not_empty [] lt = absurd (omega arith)
not_empty (x ∷ xs) lt = refl

module _ (sort : List PriorityElem → List PriorityElem) (fuel calculation : ℕ) where
  -- The participants that the next calls of `getNext` return.
  unfoldable pub take_turns : ℕ → PriorityOrderList → Outcome (List PriorityElem)
  take_turns zero s = done []
  take_turns (suc n) s = get_next sort (suc fuel) calculation s >>= λ next.
      take_turns n next.1 >>= λ rest. done (next.0 ∷ rest)

  take_turns-reverse :
      (ys : List PriorityElem) (s : PriorityOrderList)
      → s.priority_list ≡ reverse ys
      → is_empty s.base_speed ≡ false
      → take_turns (length ys) s ≡ done ys
  unfolding take_turns get_next
  take_turns-reverse [] s e full = refl
  take_turns-reverse (y ∷ ys) s e full =
      let last : unsnoc s.priority_list ≡ some (reverse ys, y) =
        ap unsnoc (e ∙ reverse-append (y ∷ []) ys) ∙ unsnoc-append (reverse ys) y in
      rw (full, last, get_next)
        (rw (
          take_turns-reverse ys (record s { current_prio = y; priority_list = reverse ys }) refl
            full))

-- A list constructed from at least one participant is ready without any calculation, and its first
-- calls of `getNext`, one for each participant, return the participants, each as often as it was given,
-- the fastest first.
pub first_round :
    (sort : List PriorityElem → List PriorityElem) (fuel calculation : ℕ) (b : PriorityElem)
    (bs : List PriorityElem)
    → SortLaws sort
    → (s : PriorityOrderList) × (ys : List PriorityElem) × (order_of sort 0 (b ∷ bs) ≡ done s)
      × (take_turns sort fuel calculation (length (b ∷ bs)) s ≡ done ys)
      × IsSorted (reverse ys)
      × SameElems ys (b ∷ bs)
unfolding order_of
first_round sort fuel calculation b bs laws = (
  s,
  reverse base,
  refl,
  turns,
  rw reverse-reverse (laws.sorted (b ∷ bs)),
  λ p. count-reverse p base ∙ laws.same (b ∷ bs) p,
)
  where
    base : List PriorityElem
    base = sort (b ∷ bs)

    s : PriorityOrderList
    s = record empty_order {
      base_speed = base;
      analyzed_list = base;
      priority_list = base;
      current_turn = 1;
    }

    same_length : length (reverse base) ≡ length (b ∷ bs)
    same_length =
        length-SameElems (reverse base) (b ∷ bs) (λ p. count-reverse p base ∙ laws.same (b ∷ bs) p)

    full : is_empty base ≡ false
    full = not_empty base (omega (arith, length-SameElems base (b ∷ bs) (laws.same (b ∷ bs))))

    turns : take_turns sort fuel calculation (length (b ∷ bs)) s ≡ done (reverse base)
    turns = rw (← same_length) (
        take_turns-reverse sort fuel calculation (reverse base) s (sym (reverse-reverse base)) full)
