-- ===== src/Context/Json.antt =====
-- The JSON documents of the configurations, by what the library that reads them documents.
use Prim.Native.String.{String}
use fy_s.Common.{ℕ, ◌%◌, ◌^◌, ◌<◌, uint_mod, ◌≡◌, Option, some, List, get_elem?}
use mathlib.Core.Option.{none}
use fy_s.Cache.{get_at}

-- Reads, with `none` for an exception: a member, as `operator[]` gives it, an element, a text or a
-- number; the values of an array; a member that is neither absent nor null; and `value`, a number or
-- the default. What is read of an absent member is up to the library.
pub record Json (J : Type 0) : Type 0 where
  pub member : J → String → Option J
  pub element : J → ℕ → Option J
  pub as_string : J → Option String
  pub as_uint : J → Option ℕ
  pub items : J → List J
  pub present : J → String → Option J
  pub value_uint : J → String → ℕ → Option ℕ

-- The whole numbers that the library keeps as such, in 64 bits.
abbrev pub Whole : Type 0
Whole = (n : ℕ) × (n < 2 ^ 64)

-- Documents that are put together from parts, and what is read of the parts that are there: a number as
-- the conversion to `unsigned int` gives it.
pub record Documents (J : Type 0) (j : Json J) : Type 0 where
  pub text : String → J
  pub number : Whole → J
  pub array : List J → J
  pub object : List (String × J) → J
  pub member-object :
      (fields : List (String × J)) (key : String) (v : J)
      → get_at fields key ≡ some v
      → j.member (object fields) key ≡ some v
  pub present-object :
      (fields : List (String × J)) (key : String) (vs : List J)
      → get_at fields key ≡ some (array vs)
      → j.present (object fields) key ≡ some (array vs)
  pub nothing : J
  pub present-nothing :
      (fields : List (String × J)) (key : String)
      → get_at fields key ≡ some nothing
      → j.present (object fields) key ≡ none
  pub present-nested :
      (fields nested : List (String × J)) (key : String)
      → get_at fields key ≡ some (object nested)
      → j.present (object fields) key ≡ some (object nested)
  pub element-array :
      (vs : List J) (i : ℕ) (v : J) → get_elem? vs i ≡ some v → j.element (array vs) i ≡ some v
  pub items-array : (vs : List J) → j.items (array vs) ≡ vs
  pub as_string-text : (s : String) → j.as_string (text s) ≡ some s
  pub as_uint-number : (n : Whole) → j.as_uint (number n) ≡ some (n.0 % uint_mod)
  pub value_uint-object :
      (fields : List (String × J)) (key : String) (n : Whole) (standard : ℕ)
      → get_at fields key ≡ some (number n)
      → j.value_uint (object fields) key standard ≡ some (n.0 % uint_mod)
