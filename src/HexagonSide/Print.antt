-- ===== src/HexagonSide/Print.antt =====
-- What the operators of services/arena/src/fightingPit/HexagonSide.cpp print.
use Prim.Native.String.{String, ◌++◌ as str_append}
use text.Mathlib.Text.{◌==◌ as str_eq}
use text.Mathlib.TextEquality.{eq_iff}
use fy_s.Common.{◌≡◌, refl, ap, sym, ◌∙◌, Bool, true, false, not, ◌||◌, tests_up_to, ==_iff}
use fy_s.HexagonSide.Sides.{
  Hexagon, a, b, c, Orientation, a_n, a_ne, a_se, a_s, a_sw, a_nw, b_n, b_ne, b_se, b_s, b_sw, b_nw,
  c_n, c_ne, c_se, c_s, c_sw, c_nw, none, beyond, code, of_code, ◌==◌,
}
use fy_s.HexagonSide.Moves.{HexagonSide}
use fy_s.HexagonSide.Placed.{IsPlaced, all_sides, placed, of_code-code}

abbrev print_orientation : Orientation → String
print_orientation a_n = "[North]"
print_orientation b_n = "[North]"
print_orientation c_n = "[North]"
print_orientation a_s = "[South]"
print_orientation b_s = "[South]"
print_orientation c_s = "[South]"
print_orientation a_ne = "[NorthEast]"
print_orientation b_ne = "[NorthEast]"
print_orientation c_ne = "[NorthEast]"
print_orientation a_nw = "[NorthWest]"
print_orientation b_nw = "[NorthWest]"
print_orientation c_nw = "[NorthWest]"
print_orientation a_se = "[SouthEast]"
print_orientation b_se = "[SouthEast]"
print_orientation c_se = "[SouthEast]"
print_orientation a_sw = "[SouthWest]"
print_orientation b_sw = "[SouthWest]"
print_orientation c_sw = "[SouthWest]"
print_orientation none = "[NONE(ERROR)]"
print_orientation (beyond n) = ""

abbrev print_hexagon : Hexagon → String
print_hexagon a = "[A]"
print_hexagon b = "[B]"
print_hexagon c = "[C]"

unfoldable pub print_side : HexagonSide → String
print_side h =
    str_append "HexagonSide:" (str_append (print_hexagon h.hexagon) (print_orientation h.side))

apart : Orientation → Orientation → Bool
unfolding print_side
apart o o' = not (str_eq (print_side (placed o)) (print_side (placed o'))) || o == o'

all_apart : tests_up_to (λ k. tests_up_to (λ l. apart (of_code k) (of_code l)) 18) 18 ≡ true
unfolding tests_up_to apart of_code
all_apart = refl

or_right : (x y : Bool) → x ≡ true → (not x || y) ≡ true → y ≡ true
or_right true y e h = h
or_right false y e h = absurd (cc e)

-- What is printed tells the sides of the pit apart.
print_side-placed :
    (o o' : Orientation)
    → IsPlaced o
    → IsPlaced o'
    → print_side (placed o) ≡ print_side (placed o')
    → o ≡ o'
unfolding apart
print_side-placed o o' h h' e =
    let row = all_sides (λ x. tests_up_to (λ l. apart x (of_code l)) 18) all_apart o h in
    let test = all_sides (λ y. apart o y) row o' h' in
    let same = (eq_iff (print_side (placed o)) (print_side (placed o'))).1 e in
    let codes = (==_iff (code o) (code o')).0 (or_right _ _ same test) in
    sym (of_code-code o h) ∙ ap of_code codes ∙ of_code-code o' h'
