-- ===== src/Cache/Runs.antt =====
-- Calls of scripting_cache/cml/src/Cml.cpp one after another, while somebody edits the scripts.
use Prim.Native.String.{String}
use fy_s.Common.{ℕ, suc, Bool, List, [], ◌∷◌}
use fy_s.Cache.{CmlCopy, write_file, find_in_cache}

-- What happens at one tick of the clock.
pub data Event : Type 0 where
  asked : String → Event
  edited : String → String → Event

-- The answers of the cache.
unfoldable pub answers : (ℕ → ℕ → Bool) → ℕ → List Event → CmlCopy → List String
unfolding find_in_cache
answers not_later now [] c = []
answers not_later now (asked key ∷ rest) c =
    let (content, c') = find_in_cache not_later now key c in
    content ∷ answers not_later (suc now) rest c'
answers not_later now (edited path content ∷ rest) c =
    answers not_later (suc now) rest (record c { fs = write_file now path content c.fs })
