-- ===== src/Layout/Routes.antt =====
-- Every side of the pit can be reached by the moves of
-- services/arena/src/fightingPit/FightingPitLayout.cpp.
use fy_s.Common.{
  ℕ, ◌+◌, ◌-◌, ◌%◌, ◌≤◌, ◌≡◌, refl, sym, subst, ◌∙◌, ap, Bool, true, false, ◌&&◌, Option, some,
  List, [], ◌∷◌, ◌++◌, arith, length, replicate, leb, leb→le, ◌==◌ as nat_eq, ==_iff, tests_up_to,
  if◌then◌else◌, Bool-cases, some_eq, &&_split, inl, inr,
}
use mathlib.Core.Option.{none}
use fy_s.CommonTypes.{MoveDirection, back, right, left}
use fy_s.HexagonSide.Sides.{Hexagon, a, b, c, Orientation, code, of_code}
use fy_s.HexagonSide.Moves.{HexagonSide, move_left, move_right, move_back}
use fy_s.HexagonSide.Placed.{
  IsPlaced, IsValid, hexagon_of, placed, eq_placed, of_code-code, moves-IsValid,
}
use fy_s.HexagonSide.Graph.{all_pairs}
use fy_s.Layout.{move}

-- The moves one after the other, `none` if one is refused.
unfoldable pub walk : List MoveDirection → HexagonSide → Option HexagonSide
walk [] h = some h
walk (d ∷ ds) h = let (done, h') = move h d in let rest = walk ds h' in if done then rest else none

-- Along one hexagon, `k` sides to the right, by the shorter way.
abbrev turn : ℕ → List MoveDirection
turn k = if leb k 3 then replicate k right else replicate (6 - k) left

-- The code of the ambush side that leads from one hexagon to another.
abbrev gate : Hexagon → Hexagon → ℕ
gate a b = 1
gate a c = 2
gate b a = 10
gate b c = 9
gate c a = 17
gate c b = 12
gate x y = 0

same_hexagon : Hexagon → Hexagon → Bool
same_hexagon a a = true
same_hexagon b b = true
same_hexagon c c = true
same_hexagon x y = false

-- From a code to a code of the same hexagon.
abbrev along : ℕ → ℕ → List MoveDirection
along o d = turn ((d + 6 - o) % 6)

route : Orientation → Orientation → List MoveDirection
route o d =
    let x = hexagon_of o in
    let y = hexagon_of d in
    if same_hexagon x y
    then along (code o) (code d)
    else along (code o) (gate x y) ++ back ∷ along (gate y x) (code d)

abbrev lands_on : Orientation → Option HexagonSide → Bool
lands_on d none = false
lands_on d (some h) = nat_eq (code h.side) (code d)

abbrev good_route : Orientation → Orientation → Bool
good_route o d = leb (length (route o d)) 7 && lands_on d (walk (route o d) (placed o))

good_routes : tests_up_to (λ j. tests_up_to (λ k. good_route (of_code j) (of_code k)) 18) 18 ≡ true
unfolding tests_up_to of_code walk route move move_left move_right move_back same_hexagon
good_routes = refl

move-IsValid : (h : HexagonSide) (d : MoveDirection) → IsValid h → IsValid (move h d).1
unfolding move
move-IsValid h right v = ground (arith, (moves-IsValid h v).3)
move-IsValid h left v = ground (arith, (moves-IsValid h v).2)
move-IsValid h back v = ground (arith, (moves-IsValid h v).4)

-- The walk keeps the object consistent.
pub walk-IsValid :
    (ds : List MoveDirection) (h : HexagonSide) {h' : HexagonSide}
    → IsValid h
    → walk ds h ≡ some h'
    → IsValid h'
unfolding walk
walk-IsValid [] h v e = subst IsValid (some_eq e) v
walk-IsValid (d ∷ ds) h v e = elim (Bool-cases (move h d).0) [
  | inl done ↦ walk-IsValid ds (move h d).1 (move-IsValid h d v) (rw done at e)
  | inr stuck ↦ absurd (cc (rw stuck at e))
]

same_side : (o d : Orientation) → IsPlaced o → IsPlaced d → nat_eq (code o) (code d) ≡ true → o ≡ d
same_side o d ho hd e = sym (of_code-code o ho) ∙ ap of_code ((==_iff _ _).0 e) ∙ of_code-code d hd

-- A walk from a consistent object that ends on the side of `d` ends in the consistent object there.
arrives :
    (ds : List MoveDirection) (h : HexagonSide) (d : Orientation) (r : Option HexagonSide)
    → IsValid h
    → IsPlaced d
    → walk ds h ≡ r
    → lands_on d r ≡ true
    → r ≡ some (placed d)
arrives ds h d none v hd e l = cc
arrives ds h d (some h') v hd e l =
    ap some (eq_placed h' (walk-IsValid ds h v e) p ∙ ap placed (same_side h'.side d p hd l))
  where
    p : IsPlaced h'.side
    p = omega (arith, (==_iff (code h'.side) (code d)).0 l)

placed-IsValid : (o : Orientation) → IsPlaced o → IsValid (placed o)
placed-IsValid o p = record { named = omega arith; home = λ q. refl }

-- From a consistent object on any side of the pit, at most seven moves to the right, to the left or to
-- the back, none of them refused, lead to any other side of the pit.
pub walk_anywhere :
    (h : HexagonSide) (d : Orientation)
    → IsValid h
    → IsPlaced h.side
    → IsPlaced d
    → (ds : List MoveDirection) × (length ds ≤ 7) × (walk ds h ≡ some (placed d))
walk_anywhere h d v hs hd =
    let good = all_pairs good_route good_routes h.side d hs hd in
    let (short, lands) = &&_split good in
    (
      route h.side d,
      leb→le _ _ short,
      rw (eq_placed h v hs) (
          arrives (route h.side d) (placed h.side) d (walk (route h.side d) (placed h.side))
            (placed-IsValid h.side hs) hd refl lands),
    )
