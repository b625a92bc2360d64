-- ===== src/Scripting/Utility/Names.antt =====
-- The names of the sides in services/arena/src/ChaiRegister.cpp: a script that writes a name means the
-- side that has it, and no other.
use Prim.Native.String.{String}
use text.Mathlib.Text.{◌==◌ as str_eq}
use fy_s.Common.{◌<◌, ◌≡◌, refl, Option, some, find, arith}
use mathlib.Core.Option.{none}
use fy_s.HexagonSide.Sides.{
  Orientation, a_n, a_ne, a_se, a_s, a_sw, a_nw, b_n, b_ne, b_se, b_s, b_sw, b_nw, c_n, c_ne, c_se,
  c_s, c_sw, c_nw, none as no_side, beyond, ◌==◌, code,
}
use fy_s.Scripting.Utility.{orientation_names}

abbrev second : {A B : Type 0} → Option (A × B) → Option B
second none = none
second (some (a, b)) = some b

abbrev first : {A B : Type 0} → Option (A × B) → Option A
first none = none
first (some (a, b)) = some a

abbrev name_of_side : Orientation → Option String
name_of_side o = second (find (λ (e : Orientation × String). e.0 == o) orientation_names)

abbrev side_of_name : String → Option Orientation
side_of_name name = first (find (λ (e : Orientation × String). str_eq e.1 name) orientation_names)

-- Every enumerator has a name, which leads back to it.
side_of_name-name_of_side :
    (o : Orientation)
    → code o < 19
    → (name : String) × (name_of_side o ≡ some name) × (side_of_name name ≡ some o)
unfolding orientation_names
side_of_name-name_of_side a_n h = ("A_N", refl, refl)
side_of_name-name_of_side a_ne h = ("A_NE", refl, refl)
side_of_name-name_of_side a_se h = ("A_SE", refl, refl)
side_of_name-name_of_side a_s h = ("A_S", refl, refl)
side_of_name-name_of_side a_sw h = ("A_SW", refl, refl)
side_of_name-name_of_side a_nw h = ("A_NW", refl, refl)
side_of_name-name_of_side b_n h = ("B_N", refl, refl)
side_of_name-name_of_side b_ne h = ("B_NE", refl, refl)
side_of_name-name_of_side b_se h = ("B_SE", refl, refl)
side_of_name-name_of_side b_s h = ("B_S", refl, refl)
side_of_name-name_of_side b_sw h = ("B_SW", refl, refl)
side_of_name-name_of_side b_nw h = ("B_NW", refl, refl)
side_of_name-name_of_side c_n h = ("C_N", refl, refl)
side_of_name-name_of_side c_ne h = ("C_NE", refl, refl)
side_of_name-name_of_side c_se h = ("C_SE", refl, refl)
side_of_name-name_of_side c_s h = ("C_S", refl, refl)
side_of_name-name_of_side c_sw h = ("C_SW", refl, refl)
side_of_name-name_of_side c_nw h = ("C_NW", refl, refl)
side_of_name-name_of_side no_side h = ("NONE", refl, refl)
side_of_name-name_of_side (beyond n) h = absurd (omega (arith, h))
