-- ===== src/Context/Values.antt =====
-- Documents in memory, in the place of the JSON library that
-- services/arena/src/ArenaServerContext.cpp and services/worldserver/src/WorldServerContext.cpp use.
use Prim.Native.String.{String}
use fy_s.Common.{ℕ, ◌%◌, uint_mod, ◌≡◌, refl, ap, ◌∙◌, Option, some, List, [], ◌∷◌, get_elem?}
use mathlib.Core.Option.{none}
use fy_s.Cache.{get_at}
use fy_s.Context.Json.{Json, Documents}

mutual
  pub data Value : Type 0 where
    null : Value
    word : String → Value
    num : ℕ → Value
    arr : Values → Value
    obj : Fields → Value

  pub data Values : Type 0 where
    nil : Values
    cons : Value → Values → Values

  pub data Fields : Type 0 where
    end : Fields
    field : String → Value → Fields → Fields

abbrev values_of : Values → List Value
values_of nil = []
values_of (cons v vs) = v ∷ values_of vs

abbrev to_values : List Value → Values
to_values [] = nil
to_values (v ∷ vs) = cons v (to_values vs)

abbrev fields_of : Fields → List (String × Value)
fields_of end = []
fields_of (field key v fs) = (key, v) ∷ fields_of fs

abbrev to_fields : List (String × Value) → Fields
to_fields [] = end
to_fields ((key, v) ∷ fs) = field key v (to_fields fs)

pub values_of-to_values : (vs : List Value) → values_of (to_values vs) ≡ vs
values_of-to_values [] = refl
values_of-to_values (v ∷ vs) = ap (λ rest. v ∷ rest) (values_of-to_values vs)

pub fields_of-to_fields : (fs : List (String × Value)) → fields_of (to_fields fs) ≡ fs
fields_of-to_fields [] = refl
fields_of-to_fields ((key, v) ∷ fs) = ap (λ rest. (key, v) ∷ rest) (fields_of-to_fields fs)

abbrev found : Value → String → Option Value
found (obj fs) key = get_at (fields_of fs) key
found v key = none

-- An absent member becomes null.
abbrev inserted : Option Value → Option Value
inserted none = some null
inserted (some v) = some v

abbrev member : Value → String → Option Value
member (obj fs) key = inserted (get_at (fields_of fs) key)
member v key = none

abbrev element : Value → ℕ → Option Value
element (arr vs) i = get_elem? (values_of vs) i
element v i = none

abbrev as_string : Value → Option String
as_string (word s) = some s
as_string v = none

abbrev as_uint : Value → Option ℕ
as_uint (num n) = some (n % uint_mod)
as_uint v = none

abbrev items : Value → List Value
items (arr vs) = values_of vs
items v = []

abbrev not_null : Option Value → Option Value
not_null none = none
not_null (some null) = none
not_null (some v) = some v

-- `value` converts what is there.
abbrev uint_or : Option Value → ℕ → Option ℕ
uint_or none standard = some standard
uint_or (some v) standard = as_uint v

abbrev pub json : Json Value
json = record {
  member = member;
  element = element;
  as_string = as_string;
  as_uint = as_uint;
  items = items;
  present = λ v key. not_null (found v key);
  value_uint = λ v key standard. uint_or (found v key) standard;
}

pub found-to_fields :
    (fields : List (String × Value)) (key : String)
    → found (obj (to_fields fields)) key ≡ get_at fields key
found-to_fields fields key = ap (λ fs. get_at fs key) (fields_of-to_fields fields)

abbrev pub documents : Documents Value json
documents = record {
  text = word;
  number = λ n. num n.0;
  array = λ vs. arr (to_values vs);
  object = λ fields. obj (to_fields fields);
  member-object = λ fields key v e. ap inserted (found-to_fields fields key ∙ e);
  present-object = λ fields key vs e. ap not_null (found-to_fields fields key ∙ e);
  nothing = null;
  present-nothing = λ fields key e. ap not_null (found-to_fields fields key ∙ e);
  present-nested = λ fields nested key e. ap not_null (found-to_fields fields key ∙ e);
  element-array = λ vs i v e. ap (λ l. get_elem? l i) (values_of-to_values vs) ∙ e;
  items-array = values_of-to_values;
  as_string-text = λ s. refl;
  as_uint-number = λ n. refl;
  value_uint-object =
      λ fields key n standard e. ap (λ o. uint_or o standard) (found-to_fields fields key ∙ e);
}

-- A whole number, where these stand for the numbers of the platform.
abbrev pub as_whole : Value → Option ℕ
as_whole (num n) = some n
as_whole v = none
