-- ===== src/SizedQueue/Wrap.antt =====
-- What the queue of services/common/include/SizedQueue.hh does when `_tail` wraps around: `pop`
-- compares the counters as they are.
use fy_s.Common.{
  ℕ, suc, ◌+◌, ◌<◌, ◌≡◌, refl, true, List, ◌∷◌, arith, length, uint_mod, add_uint, gt→leb, ge→ltb,
}
use mathlib.Core.Option.{none}
use fy_s.SizedQueue.{SizedQueue, size, push, pop}
use fy_s.SizedQueue.Refine.{Represents}

module _ {ℓ} {A : Type ℓ} (n : ℕ) (small : n < uint_mod) where
  -- A queue that holds some elements, has room for one more and has `_tail` at 2^32 - 1 accepts a
  -- push; the next `pop` then returns nothing, and leaves a queue of size 0: every element is lost.
  pub pop-push_wrapped :
      (q : SizedQueue A) (x : A) (xs : List A) (v : A)
      → Represents n q (x ∷ xs)
      → length (x ∷ xs) < n
      → q.tail + 1 ≡ uint_mod
      → ((push n q v).0 ≡ true)
        × (size (push n q v).1 ≡ suc (length (x ∷ xs)))
        × ((pop n (push n q v).1).0 ≡ none)
        × (size (pop n (push n q v).1).1 ≡ 0)
  unfolding push pop
  pop-push_wrapped q x xs v r lt top =
      rw (gt→leb n (size q) (omega arith), ge→ltb q.head (add_uint q.tail 1) (omega arith))
        (refl, omega arith, refl, refl)
