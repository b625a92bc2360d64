-- ===== src/Key/Tests.antt =====
-- Tokens of services/common/include/Key.hh for concrete indices.
use fy_s.Common.{ℕ, ◌≡◌, refl, some, List, [], ◌∷◌, length, arith}
use fy_s.Key.RoundTrip.{index_round_trip}
use fy_s.Key.{key_size, thrown, made, new_key, get_index}

abbrev filler : List ℕ
filler = 51 ∷ 49 ∷ 52 ∷ 49 ∷ 53 ∷ 57 ∷ 50 ∷ 54 ∷ []

token_of_42 : new_key filler 42 ≡ made (54 ∷ 51 ∷ 49 ∷ 52 ∷ 49 ∷ 53 ∷ 52 ∷ 50 ∷ [])
unfolding new_key
token_of_42 = refl

index_of_42 : get_index (54 ∷ 51 ∷ 49 ∷ 52 ∷ 49 ∷ 53 ∷ 52 ∷ 50 ∷ []) ≡ some 42
unfolding get_index
index_of_42 = refl

six_digits_throw : new_key filler 100000 ≡ thrown
unfolding new_key
six_digits_throw = refl

-- With nine digits the offset wraps round, and the token begins with the digits of 4294967295.
nine_digits : new_key filler 100000000 ≡ made (52 ∷ 50 ∷ 57 ∷ 52 ∷ 57 ∷ 54 ∷ 55 ∷ 50 ∷ [])
unfolding new_key
nine_digits = refl

index_of_nine_digits : get_index (52 ∷ 50 ∷ 57 ∷ 52 ∷ 57 ∷ 54 ∷ 55 ∷ 50 ∷ []) ≡ some 9672
unfolding get_index
index_of_nine_digits = refl

index_round_trip_example :
    (key : List ℕ) × (new_key filler 42 ≡ made key)
    × (length key ≡ key_size)
    × (get_index key ≡ some 42)
index_round_trip_example = index_round_trip filler 42 (omega arith) (omega arith)
