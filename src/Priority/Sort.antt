-- ===== src/Priority/Sort.antt =====
-- `PriorityOrderList::customSort` of services/arena/src/fightingPit/PriorityOrderList.cpp.
use fy_s.Common.{ℕ, ◌+◌, Bool, false, not, some, List, [], ◌∷◌, if◌then◌else◌, ltb, ◌==◌}
use fy_s.Common.Int.{eqb_ℤ}
use mathlib.Core.Option.{none}
use fy_s.CommonTypes.{PriorityElem}
use fy_s.Priority.State.{Outcome, done, to_uint, adjacent_find, reverse_range}

-- The loop over `_baseSpeed`: the last element of that id counts, and `n` stands if there is none.
unfoldable pub base_speed_of : ℕ → List PriorityElem → ℕ → ℕ
base_speed_of n [] id = n
base_speed_of n (b ∷ bs) id = base_speed_of (if b.id == id then to_uint b.speed else n) bs id

-- Two neighbours of equal speed where the first has the greater base speed.
unfoldable pub misordered : List PriorityElem → PriorityElem → PriorityElem → Bool
unfolding base_speed_of
misordered base e e2 =
    if eqb_ℤ e.speed e2.speed
    then ltb (base_speed_of 0 base e2.id) (base_speed_of 0 base e.id)
    else false

abbrev pub differ : PriorityElem → PriorityElem → Bool
differ e e2 = not (eqb_ℤ e.speed e2.speed)

-- What follows `std::sort`.
unfoldable pub reorder_equal : List PriorityElem → List PriorityElem → Outcome (List PriorityElem)
unfolding misordered
reorder_equal base sorted = elim (adjacent_find (misordered base) sorted) [
  | none ↦ done sorted
  | some found ↦ elim (adjacent_find differ sorted) [
    | none ↦ done sorted
    | some to_swap ↦ reverse_range sorted found (to_swap + 1)
  ]
]

-- `sort` is `std::sort` by `operator<`.
unfoldable pub custom_sort :
    (List PriorityElem → List PriorityElem)
    → List PriorityElem
    → List PriorityElem
    → Outcome (List PriorityElem)
unfolding reorder_equal
custom_sort sort base analyzed = reorder_equal base (sort analyzed)
