-- ===== src/Encounters/Valid.antt =====
-- What the validation of services/arena/src/ArenaServerContext.cpp gives to the drawing of monsters.
use Prim.Native.String.{String}
use fy_s.Common.{
  ℕ, zero, suc, ◌+◌, ◌%◌, ◌≤◌, ◌<◌, ◌≡◌, refl, ◌∙◌, true, some, List, [], ◌∷◌, arith, uint_mod,
  &&_split, Bool-cases, inl, inr, some_eq, sym, ap, add_uint, ==_iff, ◌==◌,
}
use text.Mathlib.Text.{◌==◌ as str_eq}
use fy_s.Common.Int.{ℤ, pos}
use mathlib.Core.Option.{none}
use mathlib.Core.Option
use mathlib.Core.List.{Memᴰ}
use fy_s.BoundaryMap.{BoundaryMap, EncounterDesc, get, make_contender_rng_boundary_map}
use fy_s.BoundaryMap.Draw.{Chances, total, drawn, draws_by_chance}
use fy_s.Encounters.{
  EncounterContext, at_zone, chance_at, accumulate, sums_to_100, valid_ranges, valid_chances,
  validate_encounter_context,
}

pub at_zone-Mem {ℓ} :
    {A : Type ℓ} (zones : List (String × A)) (ws_id : String) (a : A)
    → at_zone zones ws_id ≡ some a
    → (key : String) × Memᴰ (key, a) zones
unfolding at_zone
at_zone-Mem [] ws_id a e = absurd (cc)
at_zone-Mem ((key, b) ∷ zones) ws_id a e = elim (Bool-cases (str_eq key ws_id)) [
  | inl t ↦ (key, Memᴰ.head (ap (λ x. (key, x)) (sym (some_eq (rw t at e)))))
  | inr f ↦ let (key', inside) = at_zone-Mem zones ws_id a (rw f at e) in (key', Memᴰ.tail inside)
]

accumulate-total :
    (i val : ℕ) (cs : List ℕ) (ds : List EncounterDesc)
    → val < uint_mod
    → Chances i cs ds
    → accumulate i val ds ≡ (val + total i cs) % uint_mod
unfolding accumulate
accumulate-total i val [] [] lt h = omega arith
accumulate-total i val [] (d ∷ ds) lt h = absurd h
accumulate-total i val (c ∷ cs) [] lt h = absurd h
accumulate-total i val (c ∷ cs) (d ∷ ds) lt h =
    let own : chance_at d i ≡ c = rw (h.0, chance_at) refl in
    accumulate-total i (add_uint val (chance_at d i)) cs ds (omega arith) h.2 ∙ omega (arith, own)

zone_sum :
    (i : ℕ) (ds : List EncounterDesc)
    → i < 3
    → (accumulate 0 0 ds == 100) ≡ true
    → (accumulate 1 0 ds == 100) ≡ true
    → (accumulate 2 0 ds == 100) ≡ true
    → accumulate i 0 ds ≡ 100
zone_sum zero ds lt easy medium hard = (==_iff _ 100).0 easy
zone_sum (suc zero) ds lt easy medium hard = (==_iff _ 100).0 medium
zone_sum (suc (suc zero)) ds lt easy medium hard = (==_iff _ 100).0 hard
zone_sum (suc (suc (suc i))) ds lt easy medium hard = absurd (omega arith)

zone_sums :
    (zones : List (String × List EncounterDesc)) (zone : String × List EncounterDesc) (i : ℕ)
    → valid_chances zones ≡ true
    → Memᴰ zone zones
    → i < 3
    → accumulate i 0 zone.1 ≡ 100
unfolding valid_chances sums_to_100
zone_sums [] zone i v m lt = elim m [ ]
zone_sums (z ∷ zs) zone i v m lt =
    let (sums, rest) = &&_split {x = sums_to_100 z.1} v in
    let (easy, others) = &&_split {x = accumulate 0 0 z.1 == 100} sums in
    let (medium, hard) = &&_split {x = accumulate 1 0 z.1 == 100} others in
    elim m [
      | Memᴰ.head e ↦ rw e (zone_sum i z.1 lt easy medium hard)
      | Memᴰ.tail later ↦ zone_sums zs zone i rest later lt
    ]

-- In a validated context, a zone whose monsters all have a chance for the difficulty that is not 0,
-- and whose chances add up without a wrap-around, has a map of its monsters, and every number from 0
-- to 100 draws one of them: the one at which it stops when the chances are taken off it one after the
-- other.
pub valid_context_draws :
    (ctx : EncounterContext) (zone : String × List EncounterDesc) (i rng : ℕ) (cs : List ℕ)
    → validate_encounter_context ctx ≡ true
    → Memᴰ zone ctx.contenders_per_zone
    → i < 3
    → Chances i cs zone.1
    → total i cs < uint_mod
    → rng ≤ 100
    → (bm : BoundaryMap EncounterDesc) × (d : EncounterDesc) × (make_contender_rng_boundary_map
          zone.1 i
        ≡ some bm)
      × (Option.map (λ (e : ℤ × EncounterDesc). e.1) (get bm (pos rng)) ≡ some d)
      × (drawn i rng cs zone.1 ≡ some d)
unfolding validate_encounter_context
valid_context_draws ctx zone i rng cs v m lt h small le =
    let chances = (&&_split {x = valid_ranges ctx.range_encounter_per_zone} v).1 in
    let sum = zone_sums ctx.contenders_per_zone zone i chances m lt in
    let counted = accumulate-total i 0 cs zone.1 (omega arith) h in
    draws_by_chance i rng cs zone.1 h (omega (arith, sum, counted, small))
      (omega (arith, sum, counted, small)) (omega (arith, sum, counted, small))
