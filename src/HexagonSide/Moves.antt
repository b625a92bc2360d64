-- ===== src/HexagonSide/Moves.antt =====
-- The class `HexagonSide` of services/arena/include/fightingPit/HexagonSide.hh and
-- services/arena/src/fightingPit/HexagonSide.cpp.
use fy_s.Common.{◌+◌, ◌-◌, Bool, true, false, not, ◌&&◌, ◌||◌, if◌then◌else◌}
use fy_s.HexagonSide.Sides.{
  Hexagon, a, b, c, Orientation, a_n, a_ne, a_se, a_s, a_sw, a_nw, b_n, b_ne, b_se, b_s, b_sw, b_nw,
  c_n, c_ne, c_se, c_s, c_sw, c_nw, none, ◌==◌, code, of_code,
}
use fy_s.HexagonSide.Moveable.{hexa_is_moveable}

-- The fields `_hexagon` and `_side`.
pub record HexagonSide : Type 0 where
  pub hexagon : Hexagon
  pub side : Orientation

-- `HexagonSide(Hexagon hexagon = Hexagon::A, Orientation orientation = Orientation::NONE)`.
abbrev pub default_side : HexagonSide
default_side = record { hexagon = a; side = none }

unfoldable pub can_move : HexagonSide → Orientation → Bool
unfolding hexa_is_moveable
can_move h dest = hexa_is_moveable h.hexagon h.side dest

unfoldable pub is_ambush_side : HexagonSide → Bool
is_ambush_side h =
    h.side == a_ne
    || h.side == a_se
    || h.side == b_s
    || h.side == b_sw
    || h.side == c_n
    || h.side == c_nw

-- A destination on none of the hexagons leaves `_hexagon` as it is.
unfoldable pub change_side : HexagonSide → Orientation → HexagonSide
change_side h dest =
    let in_a =
      dest == a_n || dest == a_ne || dest == a_nw || dest == a_s || dest == a_se || dest == a_sw in
    let in_b =
      dest == b_n || dest == b_ne || dest == b_nw || dest == b_s || dest == b_se || dest == b_sw in
    let in_c =
      dest == c_n || dest == c_ne || dest == c_nw || dest == c_s || dest == c_se || dest == c_sw in
    let hexagon' = if in_a then a else if in_b then b else if in_c then c else h.hexagon in
    record { hexagon = hexagon'; side = dest }

-- A method that changes the object returns its result and the new object.
unfoldable pub move : HexagonSide → Orientation → Bool → Bool × HexagonSide
unfolding can_move change_side
move h dest force =
    if force || (not (dest == none) && can_move h dest)
    then (true, change_side h dest)
    else (false, h)

-- `NONE` has the code 18 and every other side at least 1 here, so `- 1` is exact.
unfoldable pub find_left : HexagonSide → Orientation
unfolding of_code
find_left h =
    if h.side == a_n
    then a_nw
    else if h.side == b_n
    then b_nw
    else if h.side == c_n
    then c_nw
    else of_code (code h.side - 1)

unfoldable pub find_right : HexagonSide → Orientation
unfolding of_code
find_right h =
    if h.side == a_nw
    then a_n
    else if h.side == b_nw
    then b_n
    else if h.side == c_nw
    then c_n
    else of_code (code h.side + 1)

unfoldable pub find_back : HexagonSide → Orientation
unfolding is_ambush_side
find_back h =
    if not (is_ambush_side h)
    then none
    else if h.side == b_s
    then c_n
    else if h.side == c_n
    then b_s
    else if h.side == a_ne
    then b_sw
    else if h.side == b_sw
    then a_ne
    else if h.side == c_nw
    then a_se
    else if h.side == a_se
    then c_nw
    else none

unfoldable pub move_left : HexagonSide → Bool × HexagonSide
unfolding find_left move
move_left h = move h (find_left h) false

unfoldable pub move_right : HexagonSide → Bool × HexagonSide
unfolding find_right move
move_right h = move h (find_right h) false

unfoldable pub move_back : HexagonSide → Bool × HexagonSide
unfolding find_back move
move_back h = move h (find_back h) false

-- `HexagonSide(Orientation orientation)`: a forced move from the default.
unfoldable pub of_orientation : Orientation → HexagonSide
unfolding move
of_orientation o = (move default_side o true).1
