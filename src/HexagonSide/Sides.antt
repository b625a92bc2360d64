-- ===== src/HexagonSide/Sides.antt =====
-- The sides of the three hexagons, by name and by code:
-- services/arena/include/fightingPit/HexagonSide.hh.
use fy_s.Common.{ℕ, ◌+◌, ◌-◌, Bool, if◌then◌else◌, ◌==◌ as nat_eq}

pub data Hexagon : Type 0 where
  a b c : Hexagon

-- The enumerators in their order, `NONE` last. `beyond n` is the value 19 + n of the underlying `int`,
-- which no enumerator names: `findRight` computes one by a cast.
pub data Orientation : Type 0 where
  a_n a_ne a_se a_s a_sw a_nw : Orientation
  b_n b_ne b_se b_s b_sw b_nw : Orientation
  c_n c_ne c_se c_s c_sw c_nw : Orientation
  none : Orientation
  beyond : ℕ → Orientation

-- `static_cast<int>` of an orientation.
abbrev pub code : Orientation → ℕ
code a_n = 0
code a_ne = 1
code a_se = 2
code a_s = 3
code a_sw = 4
code a_nw = 5
code b_n = 6
code b_ne = 7
code b_se = 8
code b_s = 9
code b_sw = 10
code b_nw = 11
code c_n = 12
code c_ne = 13
code c_se = 14
code c_s = 15
code c_sw = 16
code c_nw = 17
code none = 18
code (beyond n) = 19 + n

infix 50 ◌==◌
abbrev pub ◌==◌ : Orientation → Orientation → Bool
o == d = nat_eq (code o) (code d)

-- The cast of a code back to an orientation.
unfoldable pub of_code : ℕ → Orientation
of_code k =
    if nat_eq k 0
    then a_n
    else if nat_eq k 1
    then a_ne
    else if nat_eq k 2
    then a_se
    else if nat_eq k 3
    then a_s
    else if nat_eq k 4
    then a_sw
    else if nat_eq k 5
    then a_nw
    else if nat_eq k 6
    then b_n
    else if nat_eq k 7
    then b_ne
    else if nat_eq k 8
    then b_se
    else if nat_eq k 9
    then b_s
    else if nat_eq k 10
    then b_sw
    else if nat_eq k 11
    then b_nw
    else if nat_eq k 12
    then c_n
    else if nat_eq k 13
    then c_ne
    else if nat_eq k 14
    then c_se
    else if nat_eq k 15
    then c_s
    else if nat_eq k 16
    then c_sw
    else if nat_eq k 17
    then c_nw
    else if nat_eq k 18
    then none
    else beyond (k - 19)
