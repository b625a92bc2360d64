-- ===== src/BoundaryMap/Draw.antt =====
-- Which monster a random number draws, in services/arena/src/fightingPit/FightingPitAnnouncer.cpp.
use fy_s.Common.{
  ℕ, ◌^◌, ◌%◌, uint_mod, add_uint, ◌+◌, ◌-◌, ◌≤◌, ◌<◌, ◌≡◌, refl, sym, ap, ◌∙◌, Option, some, List,
  [], ◌∷◌, ◌++◌, arith, if◌then◌else◌, leb, lt→ltb, le→leb, gt→leb, get_elem?, Bool-cases, inl, inr,
}
use fy_s.Common.Int.{ℤ, pos, pos_part, neg_part, ◌≤ℤ◌}
use mathlib.Core.Option.{none}
use mathlib.Core.Option
use native.Mathlib.Nat.{zero-add}
use mathlib.Core.List.{append-nil, append_assoc}
use fy_s.BoundaryMap.{
  BoundaryMap, get, put, insert, EncounterDesc, desc_differs, add_chance, make_from,
  make_contender_rng_boundary_map,
}

-- Every key is at most `v`.
abbrev KeysUpTo : ℕ → BoundaryMap EncounterDesc → Type 0
KeysUpTo v [] = Unit
KeysUpTo v (e ∷ es) = (e.0 ≤ℤ pos v) × KeysUpTo v es

KeysUpTo-snoc :
    (v w : ℕ) (es : BoundaryMap EncounterDesc) (d : EncounterDesc)
    → v ≤ w
    → KeysUpTo v es
    → KeysUpTo w (es ++ (pos w, d) ∷ [])
KeysUpTo-snoc v w [] d le h = (omega arith, tt)
KeysUpTo-snoc v w (e ∷ es) d le h = (omega arith, KeysUpTo-snoc v w es d le h.1)

insert_beyond :
    (v w : ℕ) (es : BoundaryMap EncounterDesc) (d : EncounterDesc)
    → v < w
    → KeysUpTo v es
    → (get es (pos w) ≡ none) × (put es (pos w) d ≡ es ++ (pos w, d) ∷ [])
unfolding get put
insert_beyond v w [] d lt h = (refl, refl)
insert_beyond v w (e ∷ es) d lt h =
    let (nothing, last) = insert_beyond v w es d lt h.1 in
    (
      rw (gt→leb (w + neg_part e.0) (pos_part e.0 + 0) (omega arith)) nothing,
      rw (lt→ltb (pos_part e.0 + 0) (w + neg_part e.0) (omega arith)) (ap (λ l. e ∷ l) last),
    )

-- A sum that does not reach the sign.
add_chance-pos : (val c : ℕ) → val + c < 2 ^ 31 → add_chance (pos val) c ≡ pos (val + c)
add_chance-pos val c lt =
    let sum : add_uint (val % uint_mod) c ≡ val + c = omega arith in
    rw (sum, lt→ltb (val + c) (2 ^ 31) lt) refl

module _ (difficulty : ℕ) where
  -- Each monster has this chance, none of them 0.
  abbrev pub Chances : List ℕ → List EncounterDesc → Type 0
  Chances [] [] = Unit
  Chances [] (d ∷ ds) = ⊥
  Chances (c ∷ cs) [] = ⊥
  Chances (c ∷ cs) (d ∷ ds) = (get_elem? d.chance difficulty ≡ some c) × (0 < c) × Chances cs ds

  -- Each monster stands at the sum of the chances up to its own.
  abbrev sums : ℕ → List ℕ → List EncounterDesc → BoundaryMap EncounterDesc
  sums val [] ds = []
  sums val (c ∷ cs) [] = []
  sums val (c ∷ cs) (d ∷ ds) = (pos (val + c), d) ∷ sums (val + c) cs ds

  abbrev pub total : List ℕ → ℕ
  total [] = 0
  total (c ∷ cs) = c + total cs

  make_from-sums :
      (val : ℕ) (bm : BoundaryMap EncounterDesc) (cs : List ℕ) (ds : List EncounterDesc)
      → KeysUpTo val bm
      → Chances cs ds
      → val + total cs < 2 ^ 31
      → make_from difficulty (pos val) bm ds ≡ some (bm ++ sums val cs ds)
  unfolding make_from insert
  make_from-sums val bm [] [] up h small = ap some (sym (append-nil bm))
  make_from-sums val bm [] (d ∷ ds) up h small = absurd h
  make_from-sums val bm (c ∷ cs) [] up h small = absurd h
  make_from-sums val bm (c ∷ cs) (d ∷ ds) up h small =
      let (nothing, last) = insert_beyond val (val + c) bm d (omega arith) up in
      let sum : add_chance (pos val) c ≡ pos (val + c) = add_chance-pos val c (omega arith) in
      let added : insert desc_differs bm (add_chance (pos val) c) d
          ≡ some (bm ++ (pos (val + c), d) ∷ []) =
        ap (λ k. insert desc_differs bm k d) sum ∙ rw (nothing, insert, last) refl in
      rw (h.0, make_from, added, sum)
        (make_from-sums (val + c) (bm ++ (pos (val + c), d) ∷ []) cs ds
            (KeysUpTo-snoc val (val + c) bm d (omega arith) up) h.2 (omega arith)
          ∙ ap some (append_assoc bm ((pos (val + c), d) ∷ []) (sums (val + c) cs ds)))

  -- A number that runs through the chances, one monster after the other.
  abbrev pub drawn : ℕ → List ℕ → List EncounterDesc → Option EncounterDesc
  drawn rng [] ds = none
  drawn rng (c ∷ cs) [] = none
  drawn rng (c ∷ cs) (d ∷ ds) =
      let later = drawn (rng - c) cs ds in if leb rng c then some d else later

  get-sums :
      (val rng : ℕ) (cs : List ℕ) (ds : List EncounterDesc)
      → Chances cs ds
      → Option.map (λ (e : ℤ × EncounterDesc). e.1) (get (sums val cs ds) (pos (val + rng)))
        ≡ drawn rng cs ds
  unfolding get
  get-sums val rng [] [] h = refl
  get-sums val rng [] (d ∷ ds) h = absurd h
  get-sums val rng (c ∷ cs) [] h = absurd h
  get-sums val rng (c ∷ cs) (d ∷ ds) h = elim (Bool-cases (leb rng c)) [
    | inl t ↦ rw (t, le→leb (val + rng + 0) (val + c + 0) (ground (arith, t))) refl
    | inr f ↦
        let past : c < rng = ground (arith, f) in
        let index : val + rng ≡ val + c + (rng - c) = omega arith in
        rw (f, gt→leb (val + rng + 0) (val + c + 0) (omega arith), index)
          (get-sums (val + c) (rng - c) cs ds h.2)
  ]

  drawn_up_to_total :
      (rng : ℕ) (cs : List ℕ) (ds : List EncounterDesc)
      → Chances cs ds
      → 0 < total cs
      → rng ≤ total cs
      → (d : EncounterDesc) × (drawn rng cs ds ≡ some d)
  drawn_up_to_total rng [] ds h some_chance le = absurd (omega arith)
  drawn_up_to_total rng (c ∷ cs) [] h some_chance le = absurd h
  drawn_up_to_total rng (c ∷ cs) (d ∷ ds) h some_chance le = elim (Bool-cases (leb rng c)) [
    | inl t ↦ (d, rw t refl)
    | inr f ↦
        let past : c < rng = ground (arith, f) in
        let (e, later) = drawn_up_to_total (rng - c) cs ds h.2 (omega arith) (omega arith) in
        (e, rw f later)
  ]

-- Where every monster of a zone has a chance for the difficulty, none of these chances is 0, there is
-- a monster and the chances add up to less than 2 ^ 31, the map is built, and every number up to the
-- sum of the chances draws a monster: the one at which it stops when the chances are taken off it one
-- after the other.
pub draws_by_chance :
    (difficulty rng : ℕ) (cs : List ℕ) (zone : List EncounterDesc)
    → Chances difficulty cs zone
    → 0 < total difficulty cs
    → total difficulty cs < 2 ^ 31
    → rng ≤ total difficulty cs
    → (bm : BoundaryMap EncounterDesc) × (d : EncounterDesc) × (make_contender_rng_boundary_map zone
          difficulty
        ≡ some bm)
      × (Option.map (λ (e : ℤ × EncounterDesc). e.1) (get bm (pos rng)) ≡ some d)
      × (drawn difficulty rng cs zone ≡ some d)
unfolding make_contender_rng_boundary_map
draws_by_chance difficulty rng cs zone h some_chance small le =
    let (d, reached) = drawn_up_to_total difficulty rng cs zone h some_chance le in
    let from_zero = get-sums difficulty 0 rng cs zone h in
    (
      sums difficulty 0 cs zone,
      d,
      make_from-sums difficulty 0 [] cs zone tt h (omega (arith, small)),
      rw zero-add at from_zero ∙ reached,
      reached,
    )
