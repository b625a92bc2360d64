-- ===== src/Scripting/Texts.antt =====
-- The texts that services/arena/src/fightingPit/contender/ContenderScripting.cpp and
-- services/arena/src/ChaiRegister.cpp build: the standard library's `append`, `to_string` and the
-- searches of a character from the end.
use Prim.Native.String.{String, ◌++◌ as str_append}
use Prim.Native.Char.{code}
use fy_s.Common.{
  ℕ, zero, suc, ◌/◌, ◌%◌, Bool, false, ◌||◌, List, [], ◌∷◌, if◌then◌else◌, ◌==◌, ◌≡◌, refl,
}

unfoldable pub concat : List String → String
concat [] = ""
concat (s ∷ ss) = str_append s (concat ss)

abbrev pub digit : ℕ → String
digit n =
    if n == 0
    then "0"
    else if n == 1
    then "1"
    else if n == 2
    then "2"
    else if n == 3
    then "3"
    else if n == 4
    then "4"
    else if n == 5
    then "5"
    else if n == 6
    then "6"
    else if n == 7
    then "7"
    else if n == 8
    then "8"
    else "9"

-- The digits of a number, in front of those already there; the fuel bounds their number.
unfoldable pub digits_before : ℕ → ℕ → String → String
digits_before zero n behind = behind
digits_before (suc fuel) n behind =
    let shown = str_append (digit (n % 10)) behind in
    let more = digits_before fuel (n / 10) shown in if n / 10 == 0 then shown else more

-- A `uint` has ten digits at most.
unfoldable pub to_string : ℕ → String
unfolding digits_before
to_string n = digits_before 10 n ""

unfoldable pub has_char : ℕ → String → Bool
has_char c String.[] = false
has_char c (String.◌∷◌ d s) = code d == c || has_char c s

-- Behind the last such character, or everything.
unfoldable pub after_last : ℕ → String → String
unfolding has_char
after_last c String.[] = ""
after_last c (String.◌∷◌ d s) =
    let later = after_last c s in
    if has_char c s then later else if code d == c then s else String.◌∷◌ d s

-- Before the last such character, or everything.
unfoldable pub before_last : ℕ → String → String
unfolding has_char
before_last c String.[] = ""
before_last c (String.◌∷◌ d s) =
    let later = before_last c s in
    if has_char c s then String.◌∷◌ d later else if code d == c then "" else String.◌∷◌ d s

-- From behind the last `:` to the last `.`. A `.` before the `:`, or none, makes the length wrap round,
-- so that everything behind the `:` is taken.
unfoldable pub get_name_from_key : String → String
unfolding after_last before_last
get_name_from_key key = before_last b'.' (after_last b':' key)

name_test : get_name_from_key "arena:actions:damage:damage.chai" ≡ "damage"
unfolding get_name_from_key
name_test = refl

to_string_test : to_string 20407 ≡ "20407"
unfolding to_string
to_string_test = refl
