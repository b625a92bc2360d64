-- ===== src/SideBattle/Clock.antt =====
-- The clock of services/arena/src/fightingPit/SideBattle.cpp: polls of a battle at times that go on.
use fy_s.Common.{
  ℕ, suc, ◌+◌, ◌≤◌, ◌<◌, ◌≡◌, refl, sym, ap, ◌∙◌, true, false, some, List, [], ◌∷◌, ◌++◌, arith,
  length, replicate, is_empty, lt→ltb, ge→ltb, map,
}
use mathlib.Core.List.{reverse, reverse-append, reverse-reverse, append-nil}
use fy_s.CommonTypes.{PriorityElem}
use fy_s.HexagonSide.Sides.{Orientation}
use fy_s.Priority.State.{PriorityOrderList, no_participant, Outcome, done, ◌>>=◌, unsnoc}
use fy_s.Priority.Operations.{get_next}
use fy_s.Priority.Unsnoc.{unsnoc-append}
use fy_s.Priority.Order.{IsSorted, SameElems, SortLaws, count-reverse}
use fy_s.Priority.CustomSort.{length-SameElems}
use fy_s.Priority.FirstRound.{not_empty}
use fy_s.SideBattle.{SideBattle, new_side_battle, next_turn, get_current_participant_turn}
use fy_s.SideBattle.Filling.{Distinct, empty-IsFilled, fill, fill-IsFilled}

-- A turn as it is polled: how long after the end of the turn before the first poll comes, and how long
-- after that first poll each later one.
abbrev pub Visit : Type 0
Visit = ℕ × List ℕ

-- Each later poll comes before the turn ends.
abbrev pub Within : ℕ → List ℕ → Type 0
Within interlude [] = Unit
Within interlude (o ∷ os) = (o < interlude) × Within interlude os

abbrev pub AllWithin : ℕ → List Visit → Type 0
AllWithin interlude [] = Unit
AllWithin interlude (v ∷ vs) = Within interlude v.1 × AllWithin interlude vs

-- The times of the polls, from the end of a turn on.
abbrev pub timetable : ℕ → ℕ → List Visit → List ℕ
timetable interlude end [] = []
timetable interlude end (v ∷ vs) =
    (end + v.0) ∷ map (λ o. end + v.0 + o) v.1 ++ timetable interlude (end + v.0 + interlude) vs

-- Each participant answers every poll of his turn.
abbrev pub served : List Visit → List PriorityElem → List PriorityElem
served [] ys = []
served (v ∷ vs) [] = []
served (v ∷ vs) (y ∷ ys) = y ∷ replicate (length v.1) y ++ served vs ys

module _ (sort : List PriorityElem → List PriorityElem) (fuel calculation interlude : ℕ) where
  -- The answers to polls at these times.
  unfoldable pub polls : List ℕ → SideBattle → Outcome (List PriorityElem)
  unfolding get_current_participant_turn
  polls [] b = done []
  polls (now ∷ later) b =
      get_current_participant_turn sort (suc fuel) calculation now interlude b >>= λ answer.
      polls later answer.1 >>= λ rest. done (answer.0 ∷ rest)

  -- A battle that has started.
  abbrev running : Orientation → ℕ → PriorityOrderList → SideBattle
  running side end order = record {
    priority_order_list = order;
    side = side;
    started = true;
    end_current_turn = end;
  }

  -- A poll before the end of the turn answers who is on turn, and changes nothing.
  polls_on_turn :
      (side : Orientation) (order : PriorityOrderList) (start : ℕ) (os later : List ℕ)
      (answers : List PriorityElem)
      → Within interlude os
      → polls later (running side (start + interlude) order) ≡ done answers
      → polls (map (λ o. start + o) os ++ later) (running side (start + interlude) order)
        ≡ done (replicate (length os) order.current_prio ++ answers)
  unfolding polls get_current_participant_turn
  polls_on_turn side order start [] later answers w p = p
  polls_on_turn side order start (o ∷ os) later answers w p =
      rw
        (
          lt→ltb (start + o) (start + interlude) (omega arith),
          polls_on_turn side order start os later answers w.1 p,
        )
        refl

  abbrev turned : PriorityOrderList → PriorityElem → List PriorityElem → PriorityOrderList
  turned order y ys = record order { current_prio = y; priority_list = reverse ys }

  take_next :
      (order : PriorityOrderList) (y : PriorityElem) (ys : List PriorityElem)
      → is_empty order.base_speed ≡ false
      → order.priority_list ≡ reverse (y ∷ ys)
      → get_next sort (suc fuel) calculation order ≡ done (y, turned order y ys)
  unfolding get_next
  take_next order y ys full waits =
      let last : unsnoc order.priority_list ≡ some (reverse ys, y) =
        ap unsnoc (waits ∙ reverse-append (y ∷ []) ys) ∙ unsnoc-append (reverse ys) y in
      rw (full, last, get_next) refl

  -- A poll at the end of the turn, or past it, hands the turn on.
  polls_next :
      (side : Orientation) (order : PriorityOrderList) (end now : ℕ) (later : List ℕ)
      (y : PriorityElem) (ys answers : List PriorityElem)
      → end ≤ now
      → is_empty order.base_speed ≡ false
      → order.priority_list ≡ reverse (y ∷ ys)
      → polls later (running side (now + interlude) (turned order y ys)) ≡ done answers
      → polls (now ∷ later) (running side end order) ≡ done (y ∷ answers)
  unfolding polls get_current_participant_turn next_turn
  polls_next side order end now later y ys answers due full waits p =
      rw (ge→ltb now end due, take_next order y ys full waits, p) refl

  polls-served :
      (side : Orientation) (order : PriorityOrderList) (end : ℕ) (vs : List Visit)
      (ys : List PriorityElem)
      → length vs ≤ length ys
      → AllWithin interlude vs
      → is_empty order.base_speed ≡ false
      → order.priority_list ≡ reverse ys
      → polls (timetable interlude end vs) (running side end order) ≡ done (served vs ys)
  unfolding polls
  polls-served side order end [] ys le w full waits = refl
  polls-served side order end (v ∷ vs) [] le w full waits = absurd (omega arith)
  polls-served side order end (v ∷ vs) (y ∷ ys) le w full waits =
      polls_next side order end (end + v.0) _ y ys _ (omega arith) full waits (
        polls_on_turn side (turned order y ys) (end + v.0) v.1 _ _ w.0 (
          polls-served side (turned order y ys) (end + v.0 + interlude) vs ys (omega arith) w.1 full
            refl))

  -- The polls before the first turn.
  polls_opening :
      (b : SideBattle) (start : ℕ) (os later : List ℕ) (answers : List PriorityElem)
      → b.started ≡ false
      → 0 < interlude
      → Within interlude os
      → polls later (running b.side (start + interlude) b.priority_order_list) ≡ done answers
      → polls (start ∷ map (λ o. start + o) os ++ later) b
        ≡ done (
            b.priority_order_list.current_prio
              ∷ replicate (length os) b.priority_order_list.current_prio
            ++ answers)
  unfolding polls get_current_participant_turn
  polls_opening b start os later answers off pos w p =
      rw
        (
          off,
          lt→ltb start (start + interlude) (omega arith),
          polls_on_turn b.side b.priority_order_list start os later answers w p,
        )
        refl

-- A side is filled with at least one participant, none of them twice, and then polled: first at any
-- time, `os` after that within one interlude, and then for at most as many turns as there are
-- participants, each turn first polled when the one before has ended or later. No addition and no poll
-- fails. Until the first interlude has passed every poll answers the element that stands for nobody;
-- then the turns go to the participants, each as often as it was added, the fastest first, and every
-- poll within the interlude of a turn answers the participant whose turn it is.
pub side_battle_turns :
    (sort : List PriorityElem → List PriorityElem) (adding fuel calculation interlude start : ℕ)
    (side : Orientation) (e : PriorityElem) (es : List PriorityElem) (os : List ℕ) (vs : List Visit)
    → SortLaws sort
    → Distinct [] (e ∷ es)
    → 0 < interlude
    → Within interlude os
    → AllWithin interlude vs
    → length vs ≤ length (e ∷ es)
    → (b : SideBattle) × (ys : List PriorityElem) × (fill sort adding
          (e ∷ es)
          (new_side_battle side)
        ≡ done b)
      × (polls sort fuel calculation interlude
            (start ∷ map (λ o. start + o) os ++ timetable interlude (start + interlude) vs)
            b
          ≡ done (no_participant ∷ replicate (length os) no_participant ++ served vs ys))
      × IsSorted (reverse ys)
      × SameElems ys (e ∷ es)
side_battle_turns sort adding fuel calculation interlude start side e es os vs laws d pos w ws le =
    let (s, fills, f) =
      fill-IsFilled sort adding laws (e ∷ es) (new_side_battle side) [] empty-IsFilled d in
    let same : SameElems s.base_speed (e ∷ es) = rw append-nil at f.same in
    let same' : SameElems (reverse s.base_speed) (e ∷ es) =
      λ p. count-reverse p s.base_speed ∙ same p in
    let size : length (reverse s.base_speed) ≡ length (e ∷ es) =
      length-SameElems (reverse s.base_speed) (e ∷ es) same' in
    let full : is_empty s.base_speed ≡ false =
      not_empty s.base_speed (omega (arith, length-SameElems s.base_speed (e ∷ es) same)) in
    (
      record (new_side_battle side) { priority_order_list = s },
      reverse s.base_speed,
      fills,
      rw f.nobody at (
          polls_opening sort fuel calculation interlude
            (record (new_side_battle side) { priority_order_list = s }) start os
            (timetable interlude (start + interlude) vs) (served vs (reverse s.base_speed)) refl pos
            w
            (polls-served sort fuel calculation interlude side s (start + interlude) vs
              (reverse s.base_speed) (omega (arith, size)) ws full
              (f.ready ∙ sym (reverse-reverse s.base_speed)))),
      rw reverse-reverse f.sorted,
      same',
    )
