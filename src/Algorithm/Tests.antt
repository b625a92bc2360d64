-- ===== src/Algorithm/Tests.antt =====
-- Selections of services/common/include/algorithm/algorithm.hh among numbers.
use fy_s.Common.{ℕ, ◌≡◌, refl, ◌↔◌, some, List, [], ◌∷◌, arith, ltb}
use mathlib.Core.Option.{none}
use mathlib.Core.List.{Memᴰ}
use fy_s.Algorithm.{find_most_suitable_from, find_most_suitable}
use fy_s.Algorithm.Best.{IsBest, IsOrder, find_most_suitable-IsBest}

abbrev numbers : List ℕ
numbers = 3 ∷ 8 ∷ 5 ∷ []

greatest : find_most_suitable numbers ltb ≡ some 8
unfolding find_most_suitable find_most_suitable_from
greatest = refl

ltb-IsOrder : IsOrder ltb
ltb-IsOrder = record { irreflexive = λ x. ground arith; transitive = λ x y z p q. ground arith }

find_most_suitable-IsBest_example :
    ((find_most_suitable numbers ltb ≡ none) ↔ (numbers ≡ []))
    × ((s : ℕ) → find_most_suitable numbers ltb ≡ some s → Memᴰ s numbers × IsBest ltb s numbers)
find_most_suitable-IsBest_example = find_most_suitable-IsBest ltb ltb-IsOrder numbers
