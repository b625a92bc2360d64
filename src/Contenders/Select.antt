-- ===== src/Contenders/Select.antt =====
-- Whom the methods of services/arena/src/fightingPit/contender/PitContenders.cpp select.
use fy_s.Common.{
  ℕ, ◌-◌, ◌≤◌, ◌<◌, ◌≡◌, refl, sym, ◌∙◌, Bool, true, false, some, List, [], ◌∷◌, arith, length, All,
  All-filter, get_elem?-All, filter, count, get_elem?, is_empty, if◌then◌else◌,
}
use mathlib.Core.Option.{none}
use fy_s.CommonTypes.{is_dead}
use fy_s.HexagonSide.Sides.{Orientation, ◌==◌}
use fy_s.Algorithm.Best.{find_most_suitable-stuck}
use fy_s.Contenders.{
  FightingContender, PitContenders, Comparator, get_hexagon_side_orient,
  select_suitable_contender_on_side, select_suitable_contender_alive,
  select_suitable_contender_on_side_alive, get_contender_on_side, contender_on_side,
  select_random_contender_on_side_alive,
}

abbrev pub pit_of : List FightingContender → List Bool → PitContenders
pit_of cs flags = record { contenders = cs; change_side_flags = flags }

-- The first contender is returned by the selections of living contenders if it is dead, and by the
-- selections on a side if it stands elsewhere, whoever else is in the pit and whatever the comparator.
pub select_first_unsuitable :
    (c : FightingContender) (cs : List FightingContender) (flags : List Bool) (side : Orientation)
    (comp : Comparator)
    → (is_dead c.status.life ≡ true
        → (select_suitable_contender_alive (pit_of (c ∷ cs) flags) comp ≡ some c)
          × (select_suitable_contender_on_side_alive (pit_of (c ∷ cs) flags) side comp ≡ some c))
      × ((get_hexagon_side_orient c == side) ≡ false
          → (select_suitable_contender_on_side (pit_of (c ∷ cs) flags) side comp ≡ some c)
            × (select_suitable_contender_on_side_alive (pit_of (c ∷ cs) flags) side comp ≡ some c))
unfolding select_suitable_contender_alive select_suitable_contender_on_side
    select_suitable_contender_on_side_alive
select_first_unsuitable c cs flags side comp = (
  λ dead. (
    find_most_suitable-stuck _ c cs (λ y. rw dead),
    find_most_suitable-stuck _ c cs (λ y. rw dead),
  ),
  λ away. (
    find_most_suitable-stuck _ c cs (λ y. rw away),
    find_most_suitable-stuck _ c cs (λ y. ground (arith, away)),
  ),
)

on_side-sym :
    (side : Orientation) (cs : List FightingContender)
    → count (λ c. side == get_hexagon_side_orient c) cs
      ≡ length (filter (λ c. get_hexagon_side_orient c == side) cs)
on_side-sym side [] = refl
on_side-sym side (c ∷ cs) = ground (arith, on_side-sym side cs)

module _ (generate : ℕ → ℕ → ℕ)
    (bounds : (n : ℕ) → 1 ≤ n → (1 ≤ generate 1 n) × (generate 1 n ≤ n)) where
  pick_one :
      (p : FightingContender → Bool) (l : List FightingContender)
      → All p l
      → 0 < length l
      → (c : FightingContender) × ((if is_empty l
            then none
            else get_elem? l (generate 1 (length l) - 1))
          ≡ some c)
        × (p c ≡ true)
  pick_one p [] all lt = absurd (omega arith)
  pick_one p (x ∷ xs) all lt =
      get_elem?-All p (x ∷ xs) (generate 1 (length (x ∷ xs)) - 1) all
        (omega (arith, bounds (length (x ∷ xs)) (omega arith)))

  pick_none :
      (l : List FightingContender)
      → length l ≡ 0
      → (if is_empty l then none else get_elem? l (generate 1 (length l) - 1)) ≡ none
  pick_none [] e = refl
  pick_none (x ∷ xs) e = absurd (omega arith)

  -- With a generator that keeps to its bounds: `contenderOnSide` is the number of contenders that
  -- `getContenderOnSide` returns, and the random selection on the side returns nobody if it is 0, and
  -- otherwise a contender that stands on the side.
  pub select_random-on_side :
      (p : PitContenders) (side : Orientation)
      → (contender_on_side p side ≡ length (get_contender_on_side p side))
        × (contender_on_side p side ≡ 0
            → select_random_contender_on_side_alive generate p side ≡ none)
        × (0 < contender_on_side p side
            → (c : FightingContender) × (select_random_contender_on_side_alive generate p side
                ≡ some c)
              × ((get_hexagon_side_orient c == side) ≡ true))
  unfolding contender_on_side select_random_contender_on_side_alive get_contender_on_side
  select_random-on_side p side =
      let on_side : FightingContender → Bool = λ c. get_hexagon_side_orient c == side in
      let l = filter on_side p.contenders in
      let same = on_side-sym side p.contenders in
      (
        same,
        λ e. pick_none l (sym same ∙ e),
        λ lt. pick_one on_side l (All-filter on_side p.contenders) (omega arith),
      )
