-- ===== src/Key/RoundTrip.antt =====
-- The token of services/common/include/Key.hh, and the index that is read from it.
use fy_s.Common.{
  ℕ, zero, suc, ◌+◌, ◌-◌, ◌*◌, ◌/◌, ◌%◌, ◌^◌, ◌≤◌, ◌<◌, ◌≡◌, refl, sym, ap, ◌∙◌, true, false, some,
  List, [], ◌∷◌, ◌++◌, length, take, drop, leb, ltb, ◌==◌, arith, sub_uint, length-append,
  Bool-cases, inl, inr,
}
use fy_s.Key.{
  key_size, digits_before, to_string, made, offset_of, token_of, new_key, from_chars, get_index,
}

pow_div : (k n : ℕ) → n < 10 ^ suc k → n / 10 < 10 ^ k
pow_div k n h = omega (arith, h)

from_chars-digit :
    (read n : ℕ) (behind : List ℕ)
    → from_chars read ((48 + n % 10) ∷ behind) ≡ from_chars (read * 10 + n % 10) behind
unfolding from_chars
from_chars-digit read n behind = ground arith

-- What stands behind the digits is read on from the number.
from_chars-digits_before :
    (fuel n : ℕ) (behind : List ℕ)
    → n < 10 ^ fuel
    → from_chars 0 (digits_before fuel n behind) ≡ from_chars n behind
unfolding digits_before
from_chars-digits_before zero n behind h =
    let z : n ≡ 0 = omega (arith, h) in ap (λ x. from_chars x behind) (sym z)
from_chars-digits_before (suc fuel) n behind h = elim (Bool-cases (n / 10 == 0)) [
  | inl t ↦
      let all : 0 * 10 + n % 10 ≡ n = ground arith in
      rw t (from_chars-digit 0 n behind ∙ ap (λ x. from_chars x behind) all)
  | inr f ↦
      let shorter : n / 10 < 10 ^ fuel = pow_div fuel n h in
      let all : (n / 10) * 10 + n % 10 ≡ n = omega arith in
      rw f (
        from_chars-digits_before fuel (n / 10) ((48 + n % 10) ∷ behind) shorter
        ∙ from_chars-digit (n / 10) n behind
        ∙ ap (λ x. from_chars x behind) all)
]

length-digits_before :
    (fuel n k : ℕ) (behind : List ℕ)
    → n < 10 ^ suc k
    → length (digits_before fuel n behind) ≤ length behind + suc k
unfolding digits_before
length-digits_before zero n k behind h = omega arith
length-digits_before (suc fuel) n zero behind h = ground arith
length-digits_before (suc fuel) n (suc k) behind h = elim (Bool-cases (n / 10 == 0)) [
  | inl t ↦ rw t (omega arith)
  | inr f ↦ rw f (
      omega (
        arith,
        length-digits_before fuel (n / 10) k ((48 + n % 10) ∷ behind) (pow_div (suc k) n h),
      ))
]

behind-digits_before :
    (fuel n : ℕ) (behind : List ℕ) → length behind ≤ length (digits_before fuel n behind)
unfolding digits_before
behind-digits_before zero n behind = omega arith
behind-digits_before (suc fuel) n behind =
    ground (arith, behind-digits_before fuel (n / 10) ((48 + n % 10) ∷ behind))

drop-append : (xs ys : List ℕ) → drop (length xs) (xs ++ ys) ≡ ys
drop-append [] ys = refl
drop-append (x ∷ xs) ys = drop-append xs ys

length-take : (n : ℕ) (xs : List ℕ) → n ≤ length xs → length (take n xs) ≡ n
length-take zero xs h = refl
length-take (suc n) [] h = absurd (omega (arith, h))
length-take (suc n) (x ∷ xs) h = ap suc (length-take n xs (omega (arith, h)))

take-all : (xs : List ℕ) → take (length xs) xs ≡ xs
take-all [] = refl
take-all (x ∷ xs) = ap (λ rest. x ∷ rest) (take-all xs)

one_digit : (n : ℕ) → n < 10 → to_string n ≡ (48 + n) ∷ []
unfolding to_string digits_before
one_digit n h =
    let all : n % 10 ≡ n = omega (arith, h) in
    let first : (n / 10 == 0) ≡ true = ground arith in rw (first, all) refl

length-to_string : (n : ℕ) → n < 100000 → (0 < length (to_string n)) × (length (to_string n) ≤ 5)
unfolding to_string digits_before
length-to_string n h = (
  ground (arith, behind-digits_before 9 (n / 10) ((48 + n % 10) ∷ [])),
  length-digits_before 10 n 4 [] h,
)

-- The token of an id with as many characters as leave room for the offset.
token_of_lem :
    (filler_id id : List ℕ) (o : ℕ)
    → o + length id ≡ 7
    → 2 ≤ o
    → 0 < length id
    → o ≤ length filler_id
    → (offset_of id ≡ suc o)
      × (token_of filler_id id ≡ (48 + suc o) ∷ (take o filler_id ++ id))
      × (length (token_of filler_id id) ≡ 8)
unfolding token_of offset_of
token_of_lem filler_id id o room low some_id enough =
    let offset : sub_uint key_size (length id) ≡ suc o = omega (arith, room) in
    let one_less : suc o - 1 ≡ o = omega arith in
    let token : token_of filler_id id ≡ (48 + suc o) ∷ (take o filler_id ++ id) =
      rw (token_of, offset, one_digit (suc o) (omega (arith, room, some_id)), one_less) refl in
    (
      offset,
      token,
      ap length token
          ∙ ap suc (
              length-append (take o filler_id) id
              ∙ ap (λ n. n + length id) (length-take o filler_id enough)
              ∙ room),
    )

-- An index with five digits at most, hidden behind six or more filling characters, is read from the
-- key, which has eight characters and can be made.
pub index_round_trip :
    (filler_id : List ℕ) (index : ℕ)
    → index < 100000
    → 6 ≤ length filler_id
    → (key : List ℕ) × (new_key filler_id index ≡ made key)
      × (length key ≡ key_size)
      × (get_index key ≡ some index)
unfolding new_key get_index to_string
index_round_trip filler_id index small enough =
    let id = to_string index in
    let (some_id, short) = length-to_string index small in
    let o = 7 - length id in
    let room : o + length id ≡ 7 = omega (arith, short) in
    let low : 2 ≤ o = omega (arith, short) in
    let high : o ≤ 6 = omega (arith, some_id) in
    let filled : o ≤ length filler_id = omega (arith, high, enough) in
    let (offset, token, size) = token_of_lem filler_id id o room low some_id filled in
    let not_thrown : ltb (offset_of id) 3 ≡ false = ground (arith, offset, low) in
    let complete : ltb (length (token_of filler_id id)) key_size ≡ false = ground (arith, size) in
    let whole : take key_size (token_of filler_id id) ≡ token_of filler_id id =
      ap (λ n. take n (token_of filler_id id)) (sym size) ∙ take-all (token_of filler_id id) in
    let own_offset : sub_uint (48 + suc o) 48 ≡ suc o = omega (arith, high) in
    let inside : leb (suc o) key_size ≡ true = ground (arith, high) in
    let behind : drop o (take o filler_id ++ id) ≡ id =
      ap (λ n. drop n (take o filler_id ++ id)) (sym (length-take o filler_id filled))
      ∙ drop-append (take o filler_id) id in
    let digits : from_chars 0 id ≡ index =
      from_chars-digits_before 10 index [] (omega (arith, small)) in
    (
      token_of filler_id id,
      rw (not_thrown, complete, whole) refl,
      size,
      rw (token, own_offset, inside, behind, digits) refl,
    )
