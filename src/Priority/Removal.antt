-- ===== src/Priority/Removal.antt =====
-- What becomes of a participant that services/arena/src/fightingPit/PriorityOrderList.cpp removes.
use fy_s.Common.{
  ℕ, zero, suc, ◌≡◌, ◌≢◌, refl, subst, ◌∙◌, List, [], ◌∷◌, ◌++◌, arith, is_empty, ◌==◌, Bool-cases,
  Option-cases, ◌⊎◌, inl, inr,
}
use fy_s.CommonTypes.{PriorityElem}
use fy_s.Priority.State.{PriorityOrderList, no_participant, unsnoc}
use fy_s.Priority.Turns.{sort_base_and_calculate_priority}
use fy_s.Priority.Operations.{remove_participant_from_list, get_next}
use fy_s.Priority.Ensures.{Ensures, Ensures-bind}
use fy_s.Priority.Unsnoc.{unsnoc-some}
use fy_s.Priority.FirstRound.{take_turns}
use fy_s.Priority.Order.{SortLaws, count-append}
use fy_s.Priority.Absent.{occurrences, IsAbsent, remove-IsAbsent, calculate-IsAbsent}

module _ (sort : List PriorityElem → List PriorityElem) (laws : SortLaws sort) (k : ℕ) where
  sort_base-IsAbsent :
      (fuel : ℕ) (base prio analyzed : List PriorityElem) (current : PriorityElem) (turn : ℕ)
      → let s : PriorityOrderList = record {
        base_speed = base;
        priority_list = prio;
        analyzed_list = analyzed;
        current_prio = current;
        current_turn = turn;
      } in
        IsAbsent k s → Ensures (sort_base_and_calculate_priority sort fuel s) (IsAbsent k)
  unfolding sort_base_and_calculate_priority
  sort_base-IsAbsent fuel [] prio analyzed current turn a = record {
    base = a.base;
    priority = a.priority;
    analyzed = a.analyzed;
  }
  sort_base-IsAbsent fuel (b ∷ bs) prio analyzed current turn a =
      let sorted : occurrences k (sort (b ∷ bs)) ≡ 0 =
        laws.same (b ∷ bs) (λ x. x.id == k) ∙ a.base in
      elim (Bool-cases (turn == 0)) [
        | inl t ↦ rw t (record { base = sorted; priority = sorted; analyzed = sorted })
        | inr f ↦ rw f (
            calculate-IsAbsent sort laws k fuel turn _
              (record { base = sorted; priority = a.priority; analyzed = a.analyzed }))
      ]

  -- What `getNext` may return while the id is absent.
  abbrev pub IsOther : PriorityElem → Type 0
  IsOther e = (e ≡ no_participant) ⊎ (e.id ≢ k)

  abbrev After : PriorityElem × PriorityOrderList → Type 0
  After r = IsOther r.0 × IsAbsent k r.1

  last-other :
      (ys : List PriorityElem) (y : PriorityElem)
      → occurrences k (ys ++ y ∷ []) ≡ 0
      → (y.id ≢ k) × (occurrences k ys ≡ 0)
  last-other ys y h = ground (arith, count-append (λ x. x.id == k) ys (y ∷ []))

  get_next-After :
      (fuel calculation : ℕ) (s : PriorityOrderList)
      → IsAbsent k s
      → Ensures (get_next sort fuel calculation s) After
  unfolding get_next
  get_next-After zero calculation s a = tt
  get_next-After (suc fuel) calculation s a = elim (Bool-cases (is_empty s.base_speed)) [
    | inl t ↦ rw (t, get_next) (inl refl, a)
    | inr f ↦ elim (Option-cases (unsnoc s.priority_list)) [
      | inl n ↦
          rw (f, n, get_next)
            (Ensures-bind (sort_base_and_calculate_priority sort calculation s) _ (IsAbsent k) After
              (sort_base-IsAbsent calculation s.base_speed s.priority_list s.analyzed_list
                s.current_prio s.current_turn a)
              (λ s' h. get_next-After fuel calculation s' h))
      | inr ((rest, next), last) ↦
          let (other, gone) = last-other rest next (
            subst (λ l. occurrences k l ≡ 0) (unsnoc-some s.priority_list rest next last)
              a.priority) in
          rw (f, last, get_next)
            (inr other, record { base = a.base; priority = gone; analyzed = a.analyzed })
    ]
  ]

  abbrev pub AllOther : List PriorityElem → Type 0
  AllOther [] = Unit
  AllOther (e ∷ es) = IsOther e × AllOther es

  turns-AllOther :
      (fuel calculation n : ℕ) (s : PriorityOrderList)
      → IsAbsent k s
      → Ensures (take_turns sort fuel calculation n s) AllOther
  unfolding take_turns
  turns-AllOther fuel calculation zero s a = tt
  turns-AllOther fuel calculation (suc n) s a =
      Ensures-bind (get_next sort (suc fuel) calculation s) _ After AllOther
        (get_next-After (suc fuel) calculation s a)
        (λ r h.
          Ensures-bind (take_turns sort fuel calculation n r.1) _ AllOther AllOther
            (turns-AllOther fuel calculation n r.1 h.1) (λ rest hs. (h.0, hs)))

  -- Once an id is removed, no number of calls of `getNext`, with the calculations of new turns between
  -- them, returns a participant of that id; what else can come back is the element that stands for
  -- nobody.
  pub removed_never_next :
      (fuel calculation n : ℕ) (s : PriorityOrderList)
      → Ensures (take_turns sort fuel calculation n (remove_participant_from_list s k)) AllOther
  removed_never_next fuel calculation n s =
      turns-AllOther fuel calculation n (remove_participant_from_list s k) (remove-IsAbsent s k)
