-- ===== src/SizedQueue.antt =====
-- The bounded queue of services/common/include/SizedQueue.hh. `Fifo` is what it promises, `Refine`
-- proves that it keeps the promise, and `Wrap` says how far.
pub mod Fifo
pub mod Refine
pub mod Wrap
mod Tests
use fy_s.Common.{
  ℕ, ◌+◌, ◌%◌, Bool, true, false, Option, List, get_elem?, set, ltb, leb, if◌then◌else◌, add_uint,
  sub_uint,
}
use mathlib.Core.Option.{none}

-- `_tail` and `_head` are `uint`; the array has SIZE_QUEUE elements.
pub record SizedQueue {ℓ} (A : Type ℓ) : Type ℓ where
  pub tail : ℕ
  pub head : ℕ
  pub queue : List A

-- A queue as it is constructed, over the elements of the array.
abbrev pub fresh {ℓ} : {A : Type ℓ} → List A → SizedQueue A
fresh storage = record { tail = 0; head = 0; queue = storage }

-- `size_queue` is the template parameter SIZE_QUEUE.
abbrev pub get_index : ℕ → ℕ → ℕ
get_index size_queue index = index % size_queue

abbrev pub size {ℓ} : {A : Type ℓ} → SizedQueue A → ℕ
size q = sub_uint q.tail q.head

module _ {ℓ} {A : Type ℓ} (size_queue : ℕ) where
  -- The option read from the array is empty only out of bounds.
  unfoldable pub pop : SizedQueue A → Option A × SizedQueue A
  pop q =
      if ltb q.head q.tail
      then (get_elem? q.queue (get_index size_queue q.head), record q { head = add_uint q.head 1 })
      else (none, record q { head = 0; tail = 0 })

  unfoldable pub push : SizedQueue A → A → Bool × SizedQueue A
  push q elem' = if leb size_queue (size q) then (false, q) else (
    true,
    record q { queue = set q.queue (get_index size_queue q.tail) elem'; tail = add_uint q.tail 1 },
  )
