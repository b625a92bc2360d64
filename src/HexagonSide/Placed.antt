-- ===== src/HexagonSide/Placed.antt =====
-- When a `HexagonSide` is consistent, and that the class keeps it so:
-- services/arena/src/fightingPit/HexagonSide.cpp.
use fy_s.Common.{
  ◌/◌, ◌<◌, ◌≡◌, refl, subst, Bool, true, false, arith, if◌then◌else◌, tests_up_to,
  tests_up_to_sound, Bool-cases, inl, inr, ◌==◌ as nat_eq,
}
use fy_s.HexagonSide.Sides.{Hexagon, a, b, c, Orientation, none, beyond, code, of_code}
use fy_s.HexagonSide.Moveable.{hexa_is_moveable}
use fy_s.HexagonSide.Moves.{
  HexagonSide, can_move, change_side, move, move_left, move_right, move_back,
}

-- One of the 18 sides of the pit.
abbrev pub IsPlaced : Orientation → Type 0
IsPlaced o = code o < 18

-- Six codes in a row lie on one hexagon.
abbrev pub hexagon_of : Orientation → Hexagon
hexagon_of o = if nat_eq (code o / 6) 0 then a else if nat_eq (code o / 6) 1 then b else c

-- The side is an enumerator, and a side of the pit lies on the hexagon that is recorded.
pub record IsValid (h : HexagonSide) : Type 0 where
  pub named : code h.side < 19
  pub home : IsPlaced h.side → h.hexagon ≡ hexagon_of h.side

pub of_code-code : (o : Orientation) → IsPlaced o → of_code (code o) ≡ o
unfolding of_code
of_code-code none h = absurd (omega arith)
of_code-code (beyond n) h = absurd (omega arith)
of_code-code o h = refl

-- A test that holds of the 18 sides by evaluation holds of each side.
pub all_sides :
    (p : Orientation → Bool)
    → tests_up_to (λ k. p (of_code k)) 18 ≡ true
    → (o : Orientation) → IsPlaced o
    → p o ≡ true
all_sides p all o h =
    subst (λ x. p x ≡ true) (of_code-code o h)
      (tests_up_to_sound (λ k. p (of_code k)) all (code o) h)

change_side-IsValid :
    (h : HexagonSide) (dest : Orientation) → code dest < 19 → IsValid (change_side h dest)
unfolding change_side
change_side-IsValid h none n = record { named = n; home = λ p. absurd (omega arith) }
change_side-IsValid h (beyond n) m = absurd (omega arith)
change_side-IsValid h o n = record { named = n; home = λ p. refl }

-- The table leads from a side of the pit to another side of the pit only.
pub hexa_is_moveable-IsPlaced :
    (x : Hexagon) (o d : Orientation) → hexa_is_moveable x o d ≡ true → IsPlaced o × IsPlaced d
unfolding hexa_is_moveable
hexa_is_moveable-IsPlaced a o d h = ground arith
hexa_is_moveable-IsPlaced b o d h = ground arith
hexa_is_moveable-IsPlaced c o d h = ground arith

move-IsValid :
    (h : HexagonSide) (dest : Orientation) (force : Bool)
    → code dest < 19
    → IsValid h
    → IsValid (move h dest force).1
unfolding move
move-IsValid h dest force n v = ground (arith, change_side-IsValid h dest n)

unforced-IsValid :
    (h : HexagonSide) (dest : Orientation) → IsValid h → IsValid (move h dest false).1
unfolding move can_move
unforced-IsValid h dest v = elim (Bool-cases (hexa_is_moveable h.hexagon h.side dest)) [
  | inl m ↦
      ground (arith, change_side-IsValid h dest, hexa_is_moveable-IsPlaced h.hexagon h.side dest m)
  | inr m ↦ ground (arith, m)
]

-- A forced move to an enumerator, and every move that is not forced, keep the object consistent: its
-- side stays an enumerator, and `_hexagon` stays the hexagon that the side lies on. So do `moveLeft`,
-- `moveRight` and `moveBack`.
pub moves-IsValid :
    (h : HexagonSide)
    → IsValid h
    → ((dest : Orientation) → code dest < 19 → IsValid (move h dest true).1)
      × ((dest : Orientation) → IsValid (move h dest false).1)
      × IsValid (move_left h).1
      × IsValid (move_right h).1
      × IsValid (move_back h).1
unfolding move_left move_right move_back
moves-IsValid h v = (
  λ dest n. move-IsValid h dest true n v,
  λ dest. unforced-IsValid h dest v,
  unforced-IsValid h _ v,
  unforced-IsValid h _ v,
  unforced-IsValid h _ v,
)

-- The consistent object on a side of the pit.
abbrev pub placed : Orientation → HexagonSide
placed o = record { hexagon = hexagon_of o; side = o }

pub eq_placed : (h : HexagonSide) → IsValid h → IsPlaced h.side → h ≡ placed h.side
eq_placed h v p = ground (arith, v.home p)
