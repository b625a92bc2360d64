-- ===== src/HexagonSide/Moveable.antt =====
-- Which side can be reached from which by a move: the templates of
-- services/arena/src/fightingPit/HexagonSide.cpp.
use fy_s.Common.{Bool, false, ◌||◌, if◌then◌else◌}
use fy_s.HexagonSide.Sides.{
  Hexagon, a, b, c, Orientation, a_n, a_ne, a_se, a_s, a_sw, a_nw, b_n, b_ne, b_se, b_s, b_sw, b_nw,
  c_n, c_ne, c_se, c_s, c_sw, c_nw, ◌==◌,
}

-- The tags `North`, `NorthEast`, … of the templates.
pub data Compass : Type 0 where
  north north_east north_west south south_east south_west : Compass

-- `HexaSideOrient<ID, Orient>::isMoveable`, a clause for each specialisation.
unfoldable pub side_is_moveable : Hexagon → Compass → Orientation → Bool
side_is_moveable a north dest = dest == a_ne || dest == a_nw
side_is_moveable a south dest = dest == a_se || dest == a_sw || dest == c_nw || dest == c_sw
side_is_moveable a north_east dest =
    dest == a_n
    || dest == a_se
    || dest == b_s
    || dest == b_nw
    || dest == b_sw
    || dest == c_n
    || dest == c_nw
side_is_moveable a north_west dest = dest == a_n || dest == a_sw
side_is_moveable a south_east dest =
    dest == a_ne
    || dest == a_s
    || dest == b_s
    || dest == b_sw
    || dest == c_n
    || dest == c_nw
    || dest == c_sw
side_is_moveable a south_west dest = dest == a_nw || dest == a_s
side_is_moveable b north dest = dest == b_nw || dest == b_ne
side_is_moveable b north_east dest = dest == b_n || dest == b_se
side_is_moveable b north_west dest = dest == b_n || dest == b_sw || dest == a_n || dest == a_ne
side_is_moveable b south dest =
    dest == b_sw
    || dest == b_se
    || dest == c_n
    || dest == c_ne
    || dest == c_nw
    || dest == a_ne
    || dest == a_se
side_is_moveable b south_east dest = dest == b_s || dest == b_ne || dest == c_n || dest == c_ne
side_is_moveable b south_west dest =
    dest == b_nw
    || dest == b_s
    || dest == c_n
    || dest == c_nw
    || dest == a_ne
    || dest == a_se
    || dest == a_n
side_is_moveable c north dest =
    dest == c_ne
    || dest == c_nw
    || dest == b_s
    || dest == b_se
    || dest == b_sw
    || dest == a_ne
    || dest == a_se
side_is_moveable c north_east dest = dest == c_n || dest == c_se || dest == b_s || dest == b_se
side_is_moveable c north_west dest =
    dest == c_n
    || dest == c_sw
    || dest == a_se
    || dest == a_s
    || dest == a_ne
    || dest == b_s
    || dest == b_sw
side_is_moveable c south dest = dest == c_sw || dest == c_se
side_is_moveable c south_west dest = dest == c_s || dest == c_nw || dest == a_s || dest == a_se
side_is_moveable c south_east dest = dest == c_s || dest == c_ne

-- `HexaSide<ID>::isMoveable`.
unfoldable pub hexa_is_moveable : Hexagon → Orientation → Orientation → Bool
unfolding side_is_moveable
hexa_is_moveable a origin dest =
    if origin == dest
    then false
    else if origin == a_s
    then side_is_moveable a south dest
    else if origin == a_se
    then side_is_moveable a south_east dest
    else if origin == a_sw
    then side_is_moveable a south_west dest
    else if origin == a_n
    then side_is_moveable a north dest
    else if origin == a_ne
    then side_is_moveable a north_east dest
    else if origin == a_nw
    then side_is_moveable a north_west dest
    else false
hexa_is_moveable b origin dest =
    if origin == dest
    then false
    else if origin == b_s
    then side_is_moveable b south dest
    else if origin == b_se
    then side_is_moveable b south_east dest
    else if origin == b_sw
    then side_is_moveable b south_west dest
    else if origin == b_n
    then side_is_moveable b north dest
    else if origin == b_ne
    then side_is_moveable b north_east dest
    else if origin == b_nw
    then side_is_moveable b north_west dest
    else false
hexa_is_moveable c origin dest =
    if origin == dest
    then false
    else if origin == c_s
    then side_is_moveable c south dest
    else if origin == c_se
    then side_is_moveable c south_east dest
    else if origin == c_sw
    then side_is_moveable c south_west dest
    else if origin == c_n
    then side_is_moveable c north dest
    else if origin == c_ne
    then side_is_moveable c north_east dest
    else if origin == c_nw
    then side_is_moveable c north_west dest
    else false
