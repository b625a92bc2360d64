-- ===== src/Key.antt =====
-- The tokens that hide the index of a player: services/common/include/Key.hh. A character is its code.
pub mod RoundTrip
mod Tests
use fy_s.Common.{
  ℕ, zero, suc, ◌+◌, ◌-◌, ◌*◌, ◌/◌, ◌%◌, ◌^◌, Bool, ◌&&◌, Option, some, List, [], ◌∷◌, ◌++◌, length,
  take, drop, leb, ltb, sub_uint, ◌==◌, if◌then◌else◌,
}
use mathlib.Core.Option.{none}

abbrev pub key_size : ℕ
key_size = 8

-- The digits of a number, in front of those already there; the fuel bounds their number.
unfoldable pub digits_before : ℕ → ℕ → List ℕ → List ℕ
digits_before zero n behind = behind
digits_before (suc fuel) n behind =
    let shown = (48 + n % 10) ∷ behind in
    let more = digits_before fuel (n / 10) shown in if n / 10 == 0 then shown else more

-- `std::to_string` of an unsigned, which has ten digits at most.
unfoldable pub to_string : ℕ → List ℕ
unfolding digits_before
to_string n = digits_before 10 n []

-- What the constructor does: throws a `range_error`, reads past the end of the token, or makes a key.
pub data Made : Type 0 where
  thrown : Made
  past_the_end : Made
  made : List ℕ → Made

unfoldable pub offset_of : List ℕ → ℕ
offset_of id = sub_uint key_size (length id)

unfoldable pub token_of : List ℕ → List ℕ → List ℕ
unfolding to_string offset_of
token_of filler_id id = to_string (offset_of id) ++ take (offset_of id - 1) filler_id ++ id

-- The constructor of `Key`, with the shuffled digits of its address.
unfoldable pub new_key : List ℕ → ℕ → Made
unfolding token_of
new_key filler_id index =
    let id = to_string index in
    if ltb (offset_of id) 3
    then thrown
    else if ltb (length (token_of filler_id id)) key_size
    then past_the_end
    else made (take key_size (token_of filler_id id))

-- `std::from_chars` of fewer digits than overflow an unsigned, from what was read.
unfoldable pub from_chars : ℕ → List ℕ → ℕ
from_chars read [] = read
from_chars read (c ∷ cs) =
    let more = from_chars (read * 10 + (c - 48)) cs in if leb 48 c && leb c 57 then more else read

-- `none` where the first character leads behind the key.
unfoldable pub get_index : List ℕ → Option ℕ
unfolding from_chars
get_index [] = none
get_index (c ∷ cs) =
    let offset = sub_uint c 48 in
    if leb offset key_size then some (from_chars 0 (drop offset (c ∷ cs))) else none
