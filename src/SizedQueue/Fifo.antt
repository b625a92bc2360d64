-- ===== src/SizedQueue/Fifo.antt =====
-- What services/common/include/SizedQueue.hh promises: a first-in-first-out queue that refuses an
-- element when it holds as many as it may, and overwrites none.
use fy_s.Common.{
  ℕ, suc, Bool, true, false, Option, some, List, [], ◌∷◌, ◌++◌, length, ltb, if◌then◌else◌,
}
use mathlib.Core.Option.{none}

-- A client's call, and what it gets back.
pub data Op {ℓ} (A : Type ℓ) : Type ℓ where
  put : A → Op A
  take : Op A

pub data Reply {ℓ} (A : Type ℓ) : Type ℓ where
  pushed : Bool → Reply A
  popped : Option A → Reply A

module _ {ℓ} {A : Type ℓ} where
  unfoldable pub pop : List A → Option A × List A
  pop [] = (none, [])
  pop (x ∷ xs) = (some x, xs)

  unfoldable pub push : ℕ → List A → A → Bool × List A
  push n xs x = if ltb (length xs) n then (true, xs ++ x ∷ []) else (false, xs)

  unfoldable pub run : ℕ → List A → List (Op A) → List (Reply A)
  run n xs [] = []
  run n xs (put x ∷ ops) = let (done, xs') = push n xs x in pushed done ∷ run n xs' ops
  run n xs (take ∷ ops) = let (out, xs') = pop xs in popped out ∷ run n xs' ops

  -- How many elements a client tries to push.
  abbrev pub puts : List (Op A) → ℕ
  puts [] = 0
  puts (put x ∷ ops) = suc (puts ops)
  puts (take ∷ ops) = puts ops
