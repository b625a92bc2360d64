-- ===== src/FightingPit/Distinct.antt =====
-- Nobody is entered twice on a side by `initializePriorityListInSidesBattle` of
-- services/arena/src/fightingPit/FightingPit.cpp.
use fy_s.Common.{
  ℕ, zero, suc, ◌≤◌, ◌<◌, ◌≡◌, refl, Bool, true, false, not, ◌&&◌, List, [], ◌∷◌, ◌++◌, arith,
  count, filter, leb, map, some, ◌==◌, Bool-cases, inl, inr,
}
use fy_s.CommonTypes.{PriorityElem}
use mathlib.Core.Option.{none}
use fy_s.HexagonSide.Sides.{Orientation}
use fy_s.Contenders.{FightingContender, PitContenders, get_contender_on_side}
use fy_s.Team.Member.{TeamMember}
use fy_s.Team.Ids.{ids, numbers, all_members, IsNumbered}
use fy_s.Team.Allies.{AllyPartyTeams, first_member, members_on_side, get_members_by_side}
use fy_s.Team.Select.{on_side, members_on_side-filter}
use fy_s.Priority.Operations.{same_bool}
use fy_s.SideBattle.Filling.{Distinct}
use fy_s.FightingPit.{member_elem, contender_elems, participants_on_side}

-- The ids grow from one member to the next, from above `c` on.
abbrev pub Rising : ℕ → List TeamMember → Type 0
Rising c [] = Unit
Rising c (m ∷ ms) = (c < m.id) × Rising m.id ms

Rising-le : (c d : ℕ) (ms : List TeamMember) → c ≤ d → Rising d ms → Rising c ms
Rising-le c d [] le r = tt
Rising-le c d (m ∷ ms) le r = (omega arith, r.1)

pub Rising-filter :
    (p : TeamMember → Bool) (c : ℕ) (ms : List TeamMember) → Rising c ms → Rising c (filter p ms)
Rising-filter p c [] r = tt
Rising-filter p c (m ∷ ms) r = elim (Bool-cases (p m)) [
  | inl t ↦ rw t (r.0, Rising-filter p m.id ms r.1)
  | inr f ↦ rw f (Rising-le c m.id (filter p ms) (omega arith) (Rising-filter p m.id ms r.1))
]

pub numbers-Rising : (c n : ℕ) (ms : List TeamMember) → ids ms ≡ numbers c n → Rising c ms
numbers-Rising c n [] e = tt
numbers-Rising c zero (m ∷ ms) e = absurd (cc)
numbers-Rising c (suc n) (m ∷ ms) e =
    let head : m.id ≡ suc c = cc in
    let tail : ids ms ≡ numbers (suc c) n = cc in
    (omega (arith, head), rw head (numbers-Rising (suc c) n ms tail))

-- How many members of an id of at least `i` there are, and how many contenders.
abbrev members_from : ℕ → List PriorityElem → ℕ
members_from i = count (λ (e : PriorityElem). not e.is_contender && leb i e.id)

abbrev contenders_from : ℕ → List PriorityElem → ℕ
contenders_from i = count (λ (e : PriorityElem). e.is_contender && leb i e.id)

count_none :
    (p q : PriorityElem → Bool) (xs : List PriorityElem)
    → ((e : PriorityElem) → p e ≡ true → q e ≡ true)
    → count q xs ≡ 0
    → count p xs ≡ 0
count_none p q [] sub zeros = refl
count_none p q (x ∷ xs) sub zeros = elim (Bool-cases (p x)) [
  | inl t ↦ let t' = sub x t in absurd (ground (arith, t', zeros))
  | inr f ↦ rw f (count_none p q xs sub (ground (arith, zeros)))
]

contenders-Distinct :
    (i : ℕ) (cs : List FightingContender) (xs : List PriorityElem)
    → contenders_from i xs ≡ 0
    → Distinct xs (contender_elems i cs)
unfolding contender_elems
contenders-Distinct i [] xs new = tt
contenders-Distinct i (c ∷ cs) xs new = (
  count_none (λ e. e.id == i && same_bool e.is_contender true) (λ e. e.is_contender && leb i e.id)
      xs (λ e h. ground (arith, h)) new,
  contenders-Distinct (suc i) cs _ (
      ground (
        arith,
        count_none (λ e. e.is_contender && leb (suc i) e.id) (λ e. e.is_contender && leb i e.id) xs
            (λ e h. ground (arith, h)) new,
      )),
)

entered-Distinct :
    (c : ℕ) (ms : List TeamMember) (cs : List FightingContender) (xs : List PriorityElem)
    → Rising c ms
    → members_from (suc c) xs ≡ 0
    → contenders_from 0 xs ≡ 0
    → Distinct xs (map member_elem ms ++ contender_elems 0 cs)
unfolding member_elem
entered-Distinct c [] cs xs r few new = contenders-Distinct 0 cs xs new
entered-Distinct c (m ∷ ms) cs xs r few new = (
  count_none (λ e. e.id == m.id && same_bool e.is_contender false)
      (λ e. not e.is_contender && leb (suc c) e.id) xs (λ e h. ground (arith, h, r.0)) few,
  entered-Distinct m.id ms cs _ r.1
      (ground (
        arith,
        count_none (λ e. not e.is_contender && leb (suc m.id) e.id)
            (λ e. not e.is_contender && leb (suc c) e.id) xs (λ e h. ground (arith, h, r.0)) few,
      ))
      new,
)

side-Rising :
    (apt : AllyPartyTeams) (side : Orientation)
    → IsNumbered apt
    → Rising 0 (get_members_by_side apt side)
unfolding get_members_by_side
side-Rising apt side numbered =
    let rising =
      numbers-Rising 0 apt.current_team_member_id (all_members apt.party_teams) numbered in
    elim (first_member apt.party_teams)
      as (λ o. Rising 0 (elim o [ none ↦ [] | some m ↦ members_on_side apt.party_teams side ])) [
        | none ↦ tt
        | some m ↦
            rw (members_on_side-filter apt.party_teams side)
              (Rising-filter (on_side side) 0 (all_members apt.party_teams) rising)
      ]

-- Members numbered as `addPartyTeam` does, and contenders, each by the position on the side.
pub participants-Distinct :
    (pc : PitContenders) (apt : AllyPartyTeams) (side : Orientation)
    → IsNumbered apt
    → Distinct [] (participants_on_side pc apt side)
unfolding participants_on_side
participants-Distinct pc apt side numbered =
    entered-Distinct 0 (get_members_by_side apt side) (get_contender_on_side pc side) []
      (side-Rising apt side numbered) refl refl
