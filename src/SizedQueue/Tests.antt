-- ===== src/SizedQueue/Tests.antt =====
-- Runs of the queue of services/common/include/SizedQueue.hh over an array of three elements.
use fy_s.Common.{ℕ, ◌-◌, ◌≡◌, refl, true, false, some, List, [], ◌∷◌, arith, uint_mod}
use mathlib.Core.Option.{none}
use fy_s.SizedQueue.{SizedQueue, size, push, pop}
use fy_s.SizedQueue.Fifo
use fy_s.SizedQueue.Fifo.{Op, put, take, pushed, popped}
use fy_s.SizedQueue.Refine.{Represents, run, run_refines}
use fy_s.SizedQueue.Wrap.{pop-push_wrapped}

abbrev storage : List ℕ
storage = 0 ∷ 0 ∷ 0 ∷ []

-- 7 and 8, round the end of the array.
abbrev two_items : SizedQueue ℕ
two_items = record { tail = 7; head = 5; queue = 8 ∷ 0 ∷ 7 ∷ [] }

abbrev script : List (Op ℕ)
script = put 9 ∷ put 1 ∷ take ∷ take ∷ take ∷ take ∷ put 2 ∷ take ∷ []

two_items-Represents : Represents 3 two_items (7 ∷ 8 ∷ [])
two_items-Represents = record {
  storage = refl;
  counted = refl;
  fits = omega arith;
  unwrapped = omega arith;
  items = (refl, (refl, tt));
}

script_replies :
    run 3 two_items script
    ≡ pushed true
      ∷ pushed false
      ∷ popped (some 7)
      ∷ popped (some 8)
      ∷ popped (some 9)
      ∷ popped none
      ∷ pushed true
      ∷ popped (some 2)
      ∷ []
unfolding run push pop
script_replies = refl

run_refines_example : run 3 two_items script ≡ Fifo.run 3 (7 ∷ 8 ∷ []) script
run_refines_example =
    run_refines 3 (omega arith) (omega arith) script two_items (7 ∷ 8 ∷ []) (omega arith)
      two_items-Represents

-- `_tail` is at 2^32 - 1, one element is held.
abbrev at_the_end : SizedQueue ℕ
at_the_end = record { tail = uint_mod - 1; head = uint_mod - 2; queue = 0 ∷ 0 ∷ 7 ∷ [] }

at_the_end-Represents : Represents 3 at_the_end (7 ∷ [])
at_the_end-Represents = record {
  storage = refl;
  counted = refl;
  fits = omega arith;
  unwrapped = omega arith;
  items = (refl, tt);
}

pop-push_wrapped_example :
    ((push 3 at_the_end 5).0 ≡ true)
    × (size (push 3 at_the_end 5).1 ≡ 2)
    × ((pop 3 (push 3 at_the_end 5).1).0 ≡ none)
    × (size (pop 3 (push 3 at_the_end 5).1).1 ≡ 0)
pop-push_wrapped_example =
    pop-push_wrapped 3 (omega arith) at_the_end 7 [] 5 at_the_end-Represents (omega arith)
      (omega arith)
