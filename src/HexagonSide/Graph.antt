-- ===== src/HexagonSide/Graph.antt =====
-- Which moves succeed: the neighbours of a side, the way to the back, and the symmetry of the table:
-- services/arena/src/fightingPit/HexagonSide.cpp.
use fy_s.Common.{
  ◌≡◌, ◌≢◌, refl, sym, subst, Bool, true, false, not, ◌&&◌, ◌||◌, arith, tests_up_to, if◌then◌else◌,
}
use fy_s.HexagonSide.Sides.{Orientation, a_n, b_nw, b_sw, none, beyond, of_code, ◌==◌}
use fy_s.HexagonSide.Moves.{HexagonSide, can_move, is_ambush_side, move_left, move_right, move_back}
use fy_s.HexagonSide.Placed.{IsPlaced, IsValid, placed, eq_placed, all_sides}

module _ (P : HexagonSide → Type 0) where
  -- What holds of the consistent object on each side holds of a consistent object on a side.
  pub of_placed :
      ((o : Orientation) → IsPlaced o → P (placed o))
      → (h : HexagonSide) → IsValid h
      → IsPlaced h.side
      → P h
  of_placed all h v p = subst P (sym (eq_placed h v p)) (all h.side p)

-- `moveRight` then `moveLeft`, and the other way round.
abbrev pub TurnsBack : HexagonSide → Type 0
TurnsBack h =
    ((move_right h).0 ≡ true)
    × ((move_right h).1.hexagon ≡ h.hexagon)
    × (move_left (move_right h).1 ≡ (true, h))
    × ((move_left h).0 ≡ true)
    × ((move_left h).1.hexagon ≡ h.hexagon)
    × (move_right (move_left h).1 ≡ (true, h))

placed-TurnsBack : (o : Orientation) → IsPlaced o → TurnsBack (placed o)
unfolding move_left move_right
placed-TurnsBack none p = absurd (omega arith)
placed-TurnsBack (beyond n) p = absurd (omega arith)
placed-TurnsBack o p = (refl, refl, refl, refl, refl, refl)

-- On a side of the pit `moveRight` and `moveLeft` always succeed, stay on the hexagon, and each undoes
-- the other.
pub move_right-move_left : (h : HexagonSide) → IsValid h → IsPlaced h.side → TurnsBack h
move_right-move_left = of_placed TurnsBack placed-TurnsBack

abbrev rights : HexagonSide → HexagonSide
rights h = (move_right h).1

placed-rights :
    (o : Orientation)
    → IsPlaced o
    → rights (rights (rights (rights (rights (rights (placed o)))))) ≡ placed o
unfolding move_right
placed-rights none p = absurd (omega arith)
placed-rights (beyond n) p = absurd (omega arith)
placed-rights o p = refl

abbrev pub CrossesBack : HexagonSide → Type 0
CrossesBack h =
    (is_ambush_side h ≡ false → move_back h ≡ (false, h))
    × (is_ambush_side h ≡ true
        → ((move_back h).0 ≡ true)
          × (is_ambush_side (move_back h).1 ≡ true)
          × ((move_back h).1.hexagon ≢ h.hexagon)
          × (move_back (move_back h).1 ≡ (true, h)))

placed-CrossesBack : (o : Orientation) → IsPlaced o → CrossesBack (placed o)
unfolding move_back
placed-CrossesBack none p = absurd (omega arith)
placed-CrossesBack (beyond n) p = absurd (omega arith)
placed-CrossesBack o p =
    (λ e. ground arith, λ e. (ground arith, ground arith, ground arith, ground arith))

-- From a side of the pit `moveBack` succeeds exactly on the ambush sides: on another side it changes
-- nothing, and from an ambush side it leads to an ambush side of another hexagon, from which `moveBack`
-- leads back.
pub move_back-ambush : (h : HexagonSide) → IsValid h → IsPlaced h.side → CrossesBack h
move_back-ambush = of_placed CrossesBack placed-CrossesBack

-- The two entries of the table that have no counterpart.
abbrev pub one_way : Orientation → Orientation → Bool
one_way o d = (o == b_nw || o == b_sw) && d == a_n

abbrev symmetric_at : Orientation → Orientation → Bool
symmetric_at o d =
    not (can_move (placed o) d)
    || (if can_move (placed d) o then not (one_way o d) else one_way o d)

pub all_pairs :
    (p : Orientation → Orientation → Bool)
    → tests_up_to (λ j. tests_up_to (λ k. p (of_code j) (of_code k)) 18) 18 ≡ true
    → (o d : Orientation) → IsPlaced o
    → IsPlaced d
    → p o d ≡ true
all_pairs p all o d ho hd =
    all_sides (p o) (all_sides (λ x. tests_up_to (λ k. p x (of_code k)) 18) all o ho) d hd

symmetric_table :
    tests_up_to (λ j. tests_up_to (λ k. symmetric_at (of_code j) (of_code k)) 18) 18 ≡ true
unfolding tests_up_to of_code can_move
symmetric_table = refl

-- Wherever `canMove` allows a move from one side of the pit to another, it allows the move back, but
-- for the moves from B_NW and B_SW to A_N, which it does not allow back.
pub can_move_back :
    (o d : Orientation)
    → IsPlaced o
    → IsPlaced d
    → can_move (placed o) d ≡ true
    → can_move (placed d) o ≡ not (one_way o d)
can_move_back o d ho hd m = ground (arith, all_pairs symmetric_at symmetric_table o d ho hd)
