-- ===== src/Worker/Ids.antt =====
-- The ids that `addFightingPit` of services/arena/src/network/WorkerService.cpp gives.
use fy_s.Common.{
  ℕ, zero, suc, ◌-◌, ◌≤◌, ◌<◌, ◌≡◌, ◌≢◌, refl, ap, ◌∙◌, true, false, some, [], ◌∷◌, arith, count,
  length, ltb, if◌then◌else◌, gt→leb, uint_mod, add_uint, ◌==◌, ==_iff, Bool-cases, inl, inr,
}
use native.Mathlib.Nat.{mod-eq_of_lt}
use fy_s.FightingPit.{FightingPit, creation_error}
use fy_s.Worker.{Table, lookup, has, assign, next_id, add_fighting_pit, WorkerService}

module _ {ℓ} {A : Type ℓ} where
  -- How many keys lie above `c`.
  abbrev keys_above : ℕ → Table A → ℕ
  keys_above c = count (λ (e : ℕ × A). ltb c e.0)

  keys_above-le : (c : ℕ) (table : Table A) → keys_above (suc c) table ≤ keys_above c table
  keys_above-le c [] = omega arith
  keys_above-le c ((k, a) ∷ rest) = ground (arith, keys_above-le c rest)

  keys_above-lt :
      (c : ℕ) (table : Table A)
      → has table (suc c) ≡ true
      → keys_above (suc c) table < keys_above c table
  unfolding lookup
  keys_above-lt c [] h = absurd (cc)
  keys_above-lt c ((k, a) ∷ rest) h = elim (Bool-cases (k == suc c)) [
    | inl t ↦ ground (arith, t, keys_above-le c rest)
    | inr f ↦ ground (arith, f, keys_above-lt c rest (rw (f, has) at h))
  ]

  keys_above-length : (c : ℕ) (table : Table A) → keys_above c table ≤ length table
  keys_above-length c [] = omega arith
  keys_above-length c (e ∷ rest) = ground (arith, keys_above-length c rest)

  -- The id above the last one, below the wrap-around, is given if it is free, and passed if not.
  next_id_passes :
      (fuel : ℕ) (table : Table A) (c : ℕ)
      → suc c < uint_mod
      → next_id (suc fuel) table c
        ≡ (if has table (suc c) then next_id fuel table (suc c) else some (suc c))
  unfolding next_id
  next_id_passes fuel table c small =
      let step : add_uint c 1 ≡ suc c = mod-eq_of_lt (omega arith) ∙ omega arith in
      let nonzero : (suc c == 0) ≡ false = ground arith in rw (step, nonzero) refl

  next_id-free :
      (fuel : ℕ) (table : Table A) (c free : ℕ)
      → c < free
      → free < uint_mod
      → has table free ≡ false
      → keys_above c table < fuel
      → (id : ℕ) × (next_id fuel table c ≡ some id) × (c < id) × (has table id ≡ false)
  next_id-free zero table c free above small unused enough = absurd (omega arith)
  next_id-free (suc fuel) table c free above small unused enough =
      let passes = next_id_passes fuel table c (omega arith) in
      elim (Bool-cases (has table (suc c))) [
        | inr f ↦ (suc c, passes ∙ rw f refl, omega arith, f)
        | inl t ↦
            let other : suc c ≢ free = λ e. cc in
            let fewer = keys_above-lt c table t in
            let (id, rest, beyond, fresh) =
              next_id-free fuel table (suc c) free (omega (arith, other)) small unused
                (omega arith) in
            (
              id,
              (passes ∙ ap (λ b. if b then next_id fuel table (suc c) else some (suc c)) t) ∙ rest,
              omega arith,
              fresh,
            )
      ]

  pub lookup-assign_self :
      (table : Table A) (key : ℕ) (a : A) → lookup (assign table key a) key ≡ some a
  unfolding lookup assign
  lookup-assign_self [] key a = rw ((==_iff key key).1 refl) refl
  lookup-assign_self ((k, b) ∷ rest) key a = elim (Bool-cases (k == key)) [
    | inl t ↦ rw (t, (==_iff key key).1 refl) refl
    | inr f ↦ rw (f, f) (lookup-assign_self rest key a)
  ]

  pub lookup-assign_other :
      (table : Table A) (key other : ℕ) (a : A)
      → other ≢ key
      → lookup (assign table key a) other ≡ lookup table other
  unfolding lookup assign
  lookup-assign_other [] key other a ne =
      let apart : (key == other) ≡ false = ground (arith, ne) in rw apart refl
  lookup-assign_other ((k, b) ∷ rest) key other a ne = elim (Bool-cases (k == key)) [
    | inl t ↦
        let apart : (key == other) ≡ false = ground (arith, ne) in
        let apart' : (k == other) ≡ false = ground (arith, ne, t) in rw (t, apart, apart') refl
    | inr f ↦ rw (f, lookup-assign_other rest key other a ne) refl
  ]

-- A pit is added where the table is not full and some id above the last one given is free. It gets an
-- id that no pit had, which is not the id of an error, above the last one and no longer free; the table
-- holds the pit under that id, with that id in it, and every other pit as before. The fuel is enough if
-- it exceeds the number of pits.
pub add_fighting_pit-has {ℓ} :
    {S : Type ℓ} (fuel : ℕ) (ws : WorkerService S) (fp : FightingPit S) (free : ℕ)
    → length ws.arena_instances < uint_mod - 1
    → length ws.arena_instances < fuel
    → ws.current_arena_id < free
    → free < uint_mod
    → has ws.arena_instances free ≡ false
    → (id : ℕ) × (ws' : WorkerService S) × (add_fighting_pit fuel ws (some fp) ≡ some (id, ws'))
      × (id ≢ creation_error)
      × (has ws.arena_instances id ≡ false)
      × (ws'.current_arena_id ≡ id)
      × (lookup ws'.arena_instances id ≡ some (record fp { arena_id = id }))
      × ((other : ℕ)
          → other ≢ id
          → lookup ws'.arena_instances other ≡ lookup ws.arena_instances other)
unfolding add_fighting_pit
add_fighting_pit-has fuel ws fp free room enough above small unused =
    let (id, next, beyond, fresh) =
      next_id-free fuel ws.arena_instances ws.current_arena_id free above small unused
        (omega (arith, keys_above-length ws.current_arena_id ws.arena_instances)) in
    (
      id,
      record ws {
        current_arena_id = id;
        arena_instances = assign ws.arena_instances id (record fp { arena_id = id });
      },
      rw (gt→leb (uint_mod - 1) (length ws.arena_instances) room, next) refl,
      omega arith,
      fresh,
      refl,
      lookup-assign_self ws.arena_instances id _,
      λ other ne. lookup-assign_other ws.arena_instances id other _ ne,
    )

-- Once the last id given is 2^32 - 1, a table that is not full takes the pit under the id 0, whatever
-- is free, and the answer is the one that stands for an error.
pub add_fighting_pit_wrapped {ℓ} :
    {S : Type ℓ} (fuel : ℕ) (ws : WorkerService S) (fp : FightingPit S)
    → length ws.arena_instances < uint_mod - 1
    → ws.current_arena_id ≡ uint_mod - 1
    → (ws' : WorkerService S) × (add_fighting_pit (suc fuel) ws (some fp)
        ≡ some (creation_error, ws'))
      × (lookup ws'.arena_instances 0 ≡ some (record fp { arena_id = 0 }))
unfolding add_fighting_pit next_id
add_fighting_pit_wrapped fuel ws fp room last = (
  record ws {
    current_arena_id = 0;
    arena_instances = assign ws.arena_instances 0 (record fp { arena_id = 0 });
  },
  rw (gt→leb (uint_mod - 1) (length ws.arena_instances) room, next_id, last) refl,
  lookup-assign_self ws.arena_instances 0 _,
)
