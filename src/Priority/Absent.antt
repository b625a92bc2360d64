-- ===== src/Priority/Absent.antt =====
-- An id that services/arena/src/fightingPit/PriorityOrderList.cpp has removed stays away in the
-- calculation of a turn.
use fy_s.Common.{
  ℕ, zero, suc, ◌≡◌, refl, subst, ◌∙◌, Bool, not, List, [], ◌∷◌, ◌++◌, arith, count, filter,
  modify_first, ◌==◌, Bool-cases, Option-cases, inl, inr,
}
use fy_s.Common.Int.{ℤ}
use fy_s.CommonTypes.{PriorityElem}
use fy_s.Priority.State.{PriorityOrderList, Outcome, done, undefined, out_of_fuel, unsnoc}
use fy_s.Priority.Sort.{custom_sort}
use fy_s.Priority.Turns.{
  raise_speeds, back_or, slow_down, end_turn_routine, end_if_slowest, play_fastest, next_priority,
  calculate_priority,
}
use fy_s.Priority.Operations.{remove_participant_from_list}
use fy_s.Priority.Ensures.{Ensures, Ensures-bind}
use fy_s.Priority.Unsnoc.{unsnoc-some}
use fy_s.Priority.Order.{SortLaws, count-append, count-reverse}
use fy_s.Priority.CustomSort.{custom_sort-IsSorted}

-- How often an id stands in a list.
abbrev pub occurrences : ℕ → List PriorityElem → ℕ
occurrences k = count (λ e. e.id == k)

-- The id stands in none of the three lists.
pub record IsAbsent (k : ℕ) (s : PriorityOrderList) : Type 0 where
  pub base : occurrences k s.base_speed ≡ 0
  pub priority : occurrences k s.priority_list ≡ 0
  pub analyzed : occurrences k s.analyzed_list ≡ 0

occurrences-filter :
    (k : ℕ) (xs : List PriorityElem) → occurrences k (filter (λ e. not (e.id == k)) xs) ≡ 0
occurrences-filter k [] = refl
occurrences-filter k (x ∷ xs) = ground (arith, occurrences-filter k xs)

-- Behind a removal the id stands nowhere.
pub remove-IsAbsent :
    (s : PriorityOrderList) (k : ℕ) → IsAbsent k (remove_participant_from_list s k)
unfolding remove_participant_from_list
remove-IsAbsent s k = record {
  base = occurrences-filter k s.base_speed;
  priority = occurrences-filter k s.priority_list;
  analyzed = occurrences-filter k s.analyzed_list;
}

occurrences-modify :
    (k : ℕ) (p : PriorityElem → Bool) (f : PriorityElem → PriorityElem)
    → ((e : PriorityElem) → (f e).id ≡ e.id)
    → (xs : List PriorityElem) → occurrences k (modify_first p f xs) ≡ occurrences k xs
occurrences-modify k p f keep [] = refl
occurrences-modify k p f keep (x ∷ xs) = ground (arith, keep x, occurrences-modify k p f keep xs)

occurrences-raise :
    (k : ℕ) (fastest : ℤ) (bs analyzed : List PriorityElem)
    → occurrences k (raise_speeds fastest bs analyzed) ≡ occurrences k analyzed
unfolding raise_speeds
occurrences-raise k fastest [] analyzed = refl
occurrences-raise k fastest (b ∷ bs) analyzed =
    occurrences-raise k fastest bs _
    ∙ occurrences-modify k (λ e. e.id == b.id) _ (λ e. refl) analyzed

module _ (sort : List PriorityElem → List PriorityElem) (laws : SortLaws sort) (k : ℕ) where
  custom_sort-absent :
      (base analyzed : List PriorityElem)
      → occurrences k analyzed ≡ 0
      → Ensures (custom_sort sort base analyzed) (λ ys. occurrences k ys ≡ 0)
  custom_sort-absent base analyzed none_of = go (custom_sort sort base analyzed) refl
    where
      go :
          (o : Outcome (List PriorityElem))
          → custom_sort sort base analyzed ≡ o
          → Ensures o (λ ys. occurrences k ys ≡ 0)
      go (done ys) e =
          (custom_sort-IsSorted sort base analyzed ys laws e).1 (λ x. x.id == k) ∙ none_of
      go undefined e = tt
      go out_of_fuel e = tt

  end_turn-IsAbsent :
      (base prio analyzed : List PriorityElem) (current : PriorityElem) (turn : ℕ)
      → let s : PriorityOrderList = record {
        base_speed = base;
        priority_list = prio;
        analyzed_list = analyzed;
        current_prio = current;
        current_turn = turn;
      } in
        IsAbsent k s → Ensures (end_turn_routine sort s) (IsAbsent k)
  unfolding end_turn_routine
  end_turn-IsAbsent [] prio analyzed current turn a = record {
    base = a.base;
    priority = a.priority;
    analyzed = a.analyzed;
  }
  end_turn-IsAbsent (b ∷ []) prio analyzed current turn a = record {
    base = a.base;
    priority = a.priority;
    analyzed = a.analyzed;
  }
  end_turn-IsAbsent (b ∷ b' ∷ bs) prio analyzed current turn a =
      Ensures-bind (custom_sort sort base raised) _ (λ ys. occurrences k ys ≡ 0) (IsAbsent k)
        (custom_sort-absent base raised (occurrences-raise k _ base analyzed ∙ a.analyzed))
        (λ ys h. record {
          base = a.base;
          priority = count-reverse (λ x. x.id == k) prio ∙ a.priority;
          analyzed = h;
        })
    where
      base : List PriorityElem
      base = b ∷ b' ∷ bs

      raised : List PriorityElem
      raised = raise_speeds (back_or b' bs).speed base analyzed

  slow_down-id :
      (base others : List PriorityElem) (e : PriorityElem) → (slow_down base others e).id ≡ e.id
  slow_down-id base [] e = refl
  slow_down-id base (x ∷ xs) e = refl

  end_if_slowest-IsAbsent :
      (base : List PriorityElem) (id : ℕ) (s : PriorityOrderList)
      → IsAbsent k s
      → Ensures (end_if_slowest sort base id s) (IsAbsent k)
  unfolding end_if_slowest
  end_if_slowest-IsAbsent [] id s a = tt
  end_if_slowest-IsAbsent (b ∷ bs) id s a = elim (Bool-cases (b.id == id)) [
    | inl t ↦ rw t (
        end_turn-IsAbsent s.base_speed s.priority_list s.analyzed_list s.current_prio s.current_turn
          a)
    | inr f ↦ rw f a
  ]

  play_fastest-IsAbsent :
      (s : PriorityOrderList) (others : List PriorityElem) (back : PriorityElem)
      → IsAbsent k s
      → occurrences k (others ++ back ∷ []) ≡ 0
      → Ensures (play_fastest sort s others back) (IsAbsent k)
  unfolding play_fastest
  play_fastest-IsAbsent s others back a h =
      let fastest = slow_down s.base_speed others back in
      let same : occurrences k (fastest ∷ []) ≡ occurrences k (back ∷ []) =
        rw (slow_down-id s.base_speed others back) in
      let split = count-append (λ x. x.id == k) others (back ∷ []) in
      end_if_slowest-IsAbsent s.base_speed fastest.id _ (record {
        base = a.base;
        priority =
            count-append (λ x. x.id == k) s.priority_list (fastest ∷ [])
            ∙ omega (arith, a.priority);
        analyzed = count-append (λ x. x.id == k) others (fastest ∷ []) ∙ omega arith;
      })

  next-IsAbsent :
      (s : PriorityOrderList) → IsAbsent k s → Ensures (next_priority sort s) (IsAbsent k)
  unfolding next_priority
  next-IsAbsent s a =
      Ensures-bind (custom_sort sort s.base_speed s.analyzed_list) _ (λ ys. occurrences k ys ≡ 0)
        (IsAbsent k) (custom_sort-absent s.base_speed s.analyzed_list a.analyzed)
        (λ ys h. elim (Option-cases (unsnoc ys)) [
          | inl n ↦ rw n tt
          | inr ((others, back), last) ↦ rw last (
              play_fastest-IsAbsent s others back a
                (subst (λ l. occurrences k l ≡ 0) (unsnoc-some ys others back last) h))
        ])

  pub calculate-IsAbsent :
      (fuel turn : ℕ) (s : PriorityOrderList)
      → IsAbsent k s
      → Ensures (calculate_priority sort fuel turn s) (IsAbsent k)
  unfolding calculate_priority
  calculate-IsAbsent zero turn s a = elim (Bool-cases (s.current_turn == turn)) [
    | inl t ↦ rw t tt
    | inr f ↦ rw f a
  ]
  calculate-IsAbsent (suc fuel) turn s a = elim (Bool-cases (s.current_turn == turn)) [
    | inl t ↦
        rw (t, calculate_priority)
          (Ensures-bind (next_priority sort s) _ (IsAbsent k) (IsAbsent k) (next-IsAbsent s a)
            (λ s' h. calculate-IsAbsent fuel turn s' h))
    | inr f ↦ rw (f, calculate_priority) a
  ]
