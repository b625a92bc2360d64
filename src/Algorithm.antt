-- ===== src/Algorithm.antt =====
-- The selection of services/common/include/algorithm/algorithm.hh.
pub mod Best
mod Tests
use fy_s.Common.{Bool, Option, some, List, [], ◌∷◌, if◌then◌else◌}
use mathlib.Core.Option.{none}

module _ {ℓ} {A : Type ℓ} where
  -- `find_most_suitable(first, last, comp, start)`. An iterator is modelled by the element that it
  -- points at; `start` is always one that can be read.
  unfoldable pub find_most_suitable_from : List A → (A → A → Bool) → A → A
  find_most_suitable_from [] comp suitable = suitable
  find_most_suitable_from (x ∷ xs) comp suitable =
      find_most_suitable_from xs comp (if comp suitable x then x else suitable)

  -- `find_most_suitable(first, last, comp)` starts at `first`; `none` is the iterator `last`.
  unfoldable pub find_most_suitable : List A → (A → A → Bool) → Option A
  find_most_suitable [] comp = none
  find_most_suitable (x ∷ xs) comp = some (find_most_suitable_from (x ∷ xs) comp x)
