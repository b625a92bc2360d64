-- ===== src/SideBattle/Filling.antt =====
-- A list of services/arena/src/fightingPit/PriorityOrderList.cpp that `addParticipantInList` fills
-- before any turn is taken.
use fy_s.Common.{
  ℕ, ◌≡◌, refl, sym, subst, ap, ◌∙◌, Bool, false, List, [], ◌∷◌, ◌++◌, arith, count, any, ltb,
  if◌then◌else◌,
}
use fy_s.Common.Int.{◌+ℤ◌}
use fy_s.CommonTypes.{PriorityElem}
use fy_s.Priority.State.{PriorityOrderList, no_participant, Outcome, done, ◌>>=◌}
use fy_s.Priority.Turns.{back_or, sort_base_and_calculate_priority}
use fy_s.Priority.Operations.{empty_order, is_participant, add_participant_in_list}
use fy_s.SideBattle
use fy_s.SideBattle.{SideBattle}
use fy_s.Priority.Order.{IsSorted, SameElems, SortLaws}

any-count_zero :
    (p : PriorityElem → Bool) (xs : List PriorityElem) → count p xs ≡ 0 → any p xs ≡ false
any-count_zero p [] h = refl
any-count_zero p (x ∷ xs) h = ground (arith, any-count_zero p xs)

count-snoc :
    (p : PriorityElem → Bool) (xs : List PriorityElem) (x : PriorityElem)
    → count p (xs ++ x ∷ []) ≡ count p (x ∷ xs)
count-snoc p [] x = refl
count-snoc p (y ∷ ys) x = ground (arith, count-snoc p ys x)

count_cons :
    (p : PriorityElem → Bool) (x : PriorityElem) (xs ys : List PriorityElem)
    → count p xs ≡ count p ys
    → count p (x ∷ xs) ≡ count p (x ∷ ys)
count_cons p x xs ys e = ground (arith, e)

count_middle :
    (p : PriorityElem → Bool) (xs : List PriorityElem) (y : PriorityElem) (ys : List PriorityElem)
    → count p (xs ++ y ∷ ys) ≡ count p (y ∷ xs ++ ys)
count_middle p [] y ys = refl
count_middle p (x ∷ xs) y ys = ground (arith, count_middle p xs y ys)

-- How many of the participants bear the id and the kind of this one.
abbrev pub rivals : PriorityElem → List PriorityElem → ℕ
rivals e xs = count (is_participant e.id e.is_contender) xs

-- Beside `xs`, nobody comes twice.
abbrev pub Distinct : List PriorityElem → List PriorityElem → Type 0
Distinct xs [] = Unit
Distinct xs (e ∷ es) = (rivals e xs ≡ 0) × Distinct (e ∷ xs) es

-- No turn is taken yet, and the participants `xs` wait in the order of their speeds.
pub record IsFilled (s : PriorityOrderList) (xs : List PriorityElem) : Type 0 where
  pub before : s.current_turn ≡ 0
  pub nobody : s.current_prio ≡ no_participant
  pub ready : s.priority_list ≡ s.base_speed
  pub sorted : IsSorted s.base_speed
  pub same : SameElems s.base_speed xs

IsFilled-same :
    {s : PriorityOrderList} {xs ys : List PriorityElem}
    → IsFilled s xs
    → SameElems xs ys
    → IsFilled s ys
IsFilled-same f same = record {
  before = f.before;
  nobody = f.nobody;
  ready = f.ready;
  sorted = f.sorted;
  same = λ p. f.same p ∙ same p;
}

pub empty-IsFilled : IsFilled empty_order []
empty-IsFilled = record {
  before = refl;
  nobody = refl;
  ready = refl;
  sorted = tt;
  same = λ p. refl;
}

module _ (sort : List PriorityElem → List PriorityElem) (fuel : ℕ) where
  -- The participants are added, the first one first.
  unfoldable pub fill : List PriorityElem → SideBattle → Outcome SideBattle
  unfolding SideBattle.add_participant_in_list
  fill [] b = done b
  fill (e ∷ es) b =
      SideBattle.add_participant_in_list sort fuel b e.id e.speed e.is_contender >>= λ b'.
      fill es b'

  -- The state that `addParticipantInList` sorts.
  abbrev joining : PriorityElem → PriorityOrderList → PriorityOrderList
  joining e s =
      let base = s.base_speed ++ e ∷ [] in
      let speed =
        if ltb 0 s.current_turn then e.speed +ℤ (back_or no_participant base).speed else e.speed in
      record s {
        base_speed = base;
        analyzed_list = s.analyzed_list ++ record e { speed = speed } ∷ [];
        priority_list = [];
      }

  add_first :
      (base : List PriorityElem) (e : PriorityElem) (s : PriorityOrderList)
      → s.current_turn ≡ 0
      → s.base_speed ≡ base ++ e ∷ []
      → (s' : PriorityOrderList) × (sort_base_and_calculate_priority sort fuel s ≡ done s')
        × (s'.base_speed ≡ sort (base ++ e ∷ []))
        × (s'.priority_list ≡ sort (base ++ e ∷ []))
        × (s'.current_prio ≡ s.current_prio)
  unfolding sort_base_and_calculate_priority
  add_first [] e s turn full = rw (full, turn) (_, refl, refl, refl, refl)
  add_first (b ∷ bs) e s turn full = rw (full, turn) (_, refl, refl, refl, refl)

  module _ (laws : SortLaws sort) where
    add-IsFilled :
        (e : PriorityElem) (s : PriorityOrderList) (xs : List PriorityElem)
        → IsFilled s xs
        → rivals e xs ≡ 0
        → (s' : PriorityOrderList) × (add_participant_in_list sort fuel s e.id e.speed
              e.is_contender
            ≡ done s')
          × IsFilled s' (e ∷ xs)
    unfolding add_participant_in_list
    add-IsFilled e s xs f new =
        let (s', sorts, base, prio, current) =
          add_first s.base_speed e (joining e s) f.before refl in
        (
          record s' { current_turn = s.current_turn },
          rw
              (
                any-count_zero (is_participant e.id e.is_contender) s.base_speed (f.same _ ∙ new),
                sorts,
              )
              refl,
          record {
            before = f.before;
            nobody = current ∙ f.nobody;
            ready = prio ∙ sym base;
            sorted = subst IsSorted (sym base) (laws.sorted _);
            same = λ p.
                ap (count p) base
                ∙ laws.same _ p
                ∙ count-snoc p s.base_speed e
                ∙ count_cons p e s.base_speed xs (f.same p);
          },
        )

    -- Everybody is added, and waits for a turn.
    pub fill-IsFilled :
        (es : List PriorityElem) (b : SideBattle) (xs : List PriorityElem)
        → IsFilled b.priority_order_list xs
        → Distinct xs es
        → (s' : PriorityOrderList) × (fill es b ≡ done (record b { priority_order_list = s' }))
          × IsFilled s' (es ++ xs)
    unfolding fill SideBattle.add_participant_in_list
    fill-IsFilled [] b xs f d = (b.priority_order_list, refl, f)
    fill-IsFilled (e ∷ es) b xs f d =
        let (s', adds, f') = add-IsFilled e b.priority_order_list xs f d.0 in
        let (s'', rest, f'') =
          fill-IsFilled es (record b { priority_order_list = s' }) (e ∷ xs) f' d.1 in
        (s'', rw (adds, rest) refl, IsFilled-same f'' (λ p. count_middle p es e xs))
