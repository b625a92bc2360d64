-- ===== src/SizedQueue/Refine.antt =====
-- While `_tail` does not wrap, the queue of services/common/include/SizedQueue.hh is the queue of
-- `Fifo`.
use fy_s.Common.{
  ℕ, suc, ◌+◌, ◌-◌, ◌%◌, ◌≤◌, ◌<◌, ◌≡◌, ◌≢◌, refl, subst, lt→ltb, ge→ltb, le→leb, gt→leb, ap₂, ◌∙◌,
  some, List, [], ◌∷◌, ◌++◌, arith, length, get_elem?, set, length-set, length-append,
  get_elem?-set_self, get_elem?-set_ne, uint_mod,
}
use native.Mathlib.Nat.{mod-add-mod, mod-eq_of_lt, mod-eq-sub-mod, mod-lt, add-zero}
use native.Mathlib.Decide.{dec_lt}
use fy_s.SizedQueue.{SizedQueue, fresh, size, push, pop}
use fy_s.SizedQueue.Fifo
use fy_s.SizedQueue.Fifo.{Op, Reply, put, take, pushed, popped, puts}

-- One turn past the end of the buffer.
wrapped : (n m : ℕ) → n ≤ m → m < n + n → m % n ≡ m - n
wrapped n m past near = mod-eq-sub-mod past ∙ mod-eq_of_lt (omega arith)

apart : (n r d : ℕ) → r < n → 0 < d → d < n → (r + d) % n ≢ r
apart n r d hr pos hd e = elim (dec_lt (r + d) n) [
  | yes stays ↦ omega (arith, mod-eq_of_lt stays)
  | no past ↦ omega (arith, wrapped n (r + d) (omega arith) (omega arith))
]

-- Two counters that are less than `n` apart fall on different cells.
cells-ne : (n h k : ℕ) → 0 < n → suc k < n → (h + suc k) % n ≢ h % n
cells-ne n h k hn hk =
    rw (← mod-add-mod h n (suc k)) (apart n (h % n) (suc k) (mod-lt h hn) (omega arith) hk)

module _ {ℓ} {A : Type ℓ} (n : ℕ) where
  -- The cells from the counter `h` on hold these elements.
  abbrev pub Holds : List A → ℕ → List A → Type ℓ
  Holds buf h [] = Unit
  Holds buf h (x ∷ xs) = (get_elem? buf (h % n) ≡ some x) × Holds buf (suc h) xs

  -- A write to a cell past the elements leaves them as they are.
  Holds-set :
      (buf : List A) (h t : ℕ) (v : A) (xs : List A)
      → h + length xs ≤ t
      → t < h + n
      → Holds buf h xs
      → Holds (set buf (t % n) v) h xs
  Holds-set buf h t v [] le lt hs = tt
  Holds-set buf h t v (x ∷ xs) le lt hs = (
    get_elem?-set_ne buf v (other) ∙ hs.0,
    Holds-set buf (suc h) t v xs (omega arith) (omega arith) hs.1,
  )
    where
      other : t % n ≢ h % n
      other =
          subst (λ (k : ℕ). k % n ≢ h % n) (omega arith)
            (cells-ne n h (t - h - 1) (omega arith) (omega arith))

  Holds-append :
      (buf : List A) (h : ℕ) (v : A) (xs : List A)
      → Holds buf h xs
      → get_elem? buf ((h + length xs) % n) ≡ some v
      → Holds buf h (xs ++ v ∷ [])
  Holds-append buf h v [] hs e = (rw (← add-zero h) e, tt)
  Holds-append buf h v (x ∷ xs) hs e = (
    hs.0,
    Holds-append buf (suc h) v xs hs.1
        (subst (λ (k : ℕ). get_elem? buf (k % n) ≡ some v) (omega arith) e),
  )

  -- The queue holds these elements, oldest first, and its counters have not wrapped.
  pub record Represents (q : SizedQueue A) (xs : List A) : Type ℓ where
    pub storage : length q.queue ≡ n
    pub counted : q.tail ≡ q.head + length xs
    pub fits : length xs ≤ n
    pub unwrapped : q.tail < uint_mod
    pub items : Holds q.queue q.head xs

  -- What a client sees of a sequence of calls.
  unfoldable pub run : SizedQueue A → List (Op A) → List (Reply A)
  run q [] = []
  run q (put x ∷ ops) = let (done, q') = push n q x in pushed done ∷ run q' ops
  run q (take ∷ ops) = let (out, q') = pop n q in popped out ∷ run q' ops

  module _ (room : 0 < n) (small : n < uint_mod) where
    pub fresh-Represents : (storage : List A) → length storage ≡ n → Represents (fresh storage) []
    fresh-Represents storage e = record {
      storage = e;
      counted = refl;
      fits = omega arith;
      unwrapped = omega arith;
      items = tt;
    }

    pub pop_refines :
        (q : SizedQueue A) (xs : List A)
        → Represents q xs
        → ((pop n q).0 ≡ (Fifo.pop xs).0) × Represents (pop n q).1 (Fifo.pop xs).1
    unfolding pop Fifo.pop
    pop_refines q [] r = rw (ge→ltb q.head q.tail (omega arith)) (
      refl,
      record {
        storage = r.storage;
        counted = refl;
        fits = r.fits;
        unwrapped = omega arith;
        items = tt;
      },
    )
    pop_refines q (x ∷ xs) r = rw (lt→ltb q.head q.tail (omega arith)) (
      r.items.0,
      record {
        storage = r.storage;
        counted = omega arith;
        fits = omega arith;
        unwrapped = r.unwrapped;
        items = subst (λ (k : ℕ). Holds q.queue k xs) (omega arith) r.items.1;
      },
    )

    pub push_refines :
        (q : SizedQueue A) (xs : List A) (v : A)
        → q.tail + 1 < uint_mod
        → Represents q xs
        → ((push n q v).0 ≡ (Fifo.push n xs v).0) × Represents (push n q v).1 (Fifo.push n xs v).1
    unfolding push Fifo.push
    push_refines q xs v lt r = elim (dec_lt (length xs) n) [
      | yes p ↦
          rw (lt→ltb (length xs) n p, gt→leb n (size q) (omega arith))
            (
              refl,
              record {
                storage = length-set q.queue (q.tail % n) v ∙ r.storage;
                counted = omega (arith, length-append xs (v ∷ []));
                fits = omega (arith, length-append xs (v ∷ []));
                unwrapped = omega arith;
                items =
                    Holds-append (set q.queue (q.tail % n) v) q.head v xs
                      (Holds-set q.queue q.head q.tail v xs (omega arith) (omega arith) r.items)
                      (subst (λ (k : ℕ). get_elem? (set q.queue (q.tail % n) v) (k % n) ≡ some v)
                        r.counted
                        (get_elem?-set_self q.queue (q.tail % n) v
                          (rw r.storage (mod-lt q.tail room))));
              },
            )
      | no p ↦ rw (ge→ltb (length xs) n (omega arith), le→leb n (size q) (omega arith)) (refl, r)
    ]

    tail-push : (q : SizedQueue A) (v : A) → (push n q v).1.tail ≤ q.tail + 1
    unfolding push
    tail-push q v = ground arith

    tail-pop : (q : SizedQueue A) → (pop n q).1.tail ≤ q.tail
    unfolding pop
    tail-pop q = ground arith

    -- From a queue that represents some elements, no sequence of calls tells the queue from the
    -- first-in-first-out queue of those elements, as long as `_tail` and the number of pushes together
    -- stay below 2^32.
    pub run_refines :
        (ops : List (Op A)) (q : SizedQueue A) (xs : List A)
        → q.tail + puts ops < uint_mod
        → Represents q xs
        → run q ops ≡ Fifo.run n xs ops
    unfolding run Fifo.run
    run_refines [] q xs lt r = refl
    run_refines (put x ∷ ops) q xs lt r =
        let (e, r') = push_refines q xs x (omega arith) r in
        ap₂ (λ b l. pushed b ∷ l) e (run_refines ops _ _ (omega (arith, tail-push q x)) r')
    run_refines (take ∷ ops) q xs lt r =
        let (e, r') = pop_refines q xs r in
        ap₂ (λ o l. popped o ∷ l) e (run_refines ops _ _ (omega (arith, tail-pop q)) r')
