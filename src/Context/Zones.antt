-- ===== src/Context/Zones.antt =====
-- The contenders that services/arena/src/ArenaServerContext.cpp files under each zone.
use Prim.Native.String.{String}
use text.Mathlib.Text.{◌==◌ as str_eq}
use text.Mathlib.TextEquality.{eq_iff}
use fy_s.Common.{
  ◌%◌, uint_mod, ◌≡◌, refl, sym, ap, ◌∙◌, false, Option, some, List, [], ◌∷◌, ◌++◌, if◌then◌else◌,
  Bool-cases, inl, inr,
}
use mathlib.Core.Option.{none}
use mathlib.Core.List.{append-nil, append_assoc}
use fy_s.BoundaryMap.{EncounterDesc}
use fy_s.Encounters.{at_zone}
use fy_s.Context.Json.{Whole}
use fy_s.Context.Arena.{file_contender}

pub record Contender : Type 0 where
  pub zone : String
  pub key : String
  pub max_encountering : Whole
  pub easy : Whole
  pub medium : Whole
  pub hard : Whole

-- What is read of a contender: its numbers are `unsigned int`.
abbrev pub desc_of : Contender → EncounterDesc
desc_of c = record {
  key = c.key;
  max_encountering = c.max_encountering.0 % uint_mod;
  chance = c.easy.0 % uint_mod ∷ c.medium.0 % uint_mod ∷ c.hard.0 % uint_mod ∷ [];
}

abbrev pub zones_from :
    List Contender → List (String × List EncounterDesc) → List (String × List EncounterDesc)
zones_from [] zones = zones
zones_from (c ∷ cs) zones = zones_from cs (file_contender c.zone (desc_of c) zones)

-- The contenders that name a zone, in their order.
unfoldable pub contenders_in : String → List Contender → List EncounterDesc
contenders_in zone [] = []
contenders_in zone (c ∷ cs) =
    let rest = contenders_in zone cs in if str_eq c.zone zone then desc_of c ∷ rest else rest

-- A zone that nobody names is not there.
abbrev pub joined : Option (List EncounterDesc) → List EncounterDesc → Option (List EncounterDesc)
joined none [] = none
joined none (d ∷ ds) = some (d ∷ ds)
joined (some old) ds = some (old ++ ds)

joined-nil : (o : Option (List EncounterDesc)) → joined o [] ≡ o
joined-nil none = refl
joined-nil (some old) = ap some (append-nil old)

joined_later :
    (o : Option (List EncounterDesc)) (d : EncounterDesc) (ds : List EncounterDesc)
    → joined (joined o (d ∷ [])) ds ≡ joined o (d ∷ ds)
joined_later none d ds = refl
joined_later (some old) d ds = ap some (append_assoc old (d ∷ []) ds)

at_zone-file_contender_here :
    (zone : String) (d : EncounterDesc) (zones : List (String × List EncounterDesc)) (z : String)
    → zone ≡ z
    → at_zone (file_contender zone d zones) z ≡ joined (at_zone zones z) (d ∷ [])
unfolding at_zone file_contender
at_zone-file_contender_here zone d [] z e = rw ((eq_iff zone z).1 e) refl
at_zone-file_contender_here zone d ((key, ds) ∷ zones) z e = elim (Bool-cases (str_eq key zone)) [
  | inl t ↦ rw (t, (eq_iff key z).1 ((eq_iff key zone).0 t ∙ e)) refl
  | inr f ↦
      let other : str_eq key z ≡ false = ap (str_eq key) (sym e) ∙ f in
      rw (f, other) (at_zone-file_contender_here zone d zones z e)
]

at_zone-file_contender_other :
    (zone : String) (d : EncounterDesc) (zones : List (String × List EncounterDesc)) (z : String)
    → str_eq zone z ≡ false
    → at_zone (file_contender zone d zones) z ≡ at_zone zones z
unfolding at_zone file_contender
at_zone-file_contender_other zone d [] z f = rw f refl
at_zone-file_contender_other zone d ((key, ds) ∷ zones) z f = elim (Bool-cases (str_eq key zone)) [
  | inl t ↦
      let other : str_eq key z ≡ false = ap (λ k. str_eq k z) ((eq_iff key zone).0 t) ∙ f in
      rw (t, other) refl
  | inr apart ↦ elim (Bool-cases (str_eq key z)) [
    | inl here ↦ rw (apart, here) refl
    | inr other ↦ rw (apart, other) (at_zone-file_contender_other zone d zones z f)
  ]
]

-- A zone has its contenders of before, and then those of the configuration that name it.
pub at_zone-zones_from :
    (cs : List Contender) (zones : List (String × List EncounterDesc)) (z : String)
    → at_zone (zones_from cs zones) z ≡ joined (at_zone zones z) (contenders_in z cs)
unfolding contenders_in
at_zone-zones_from [] zones z = sym (joined-nil (at_zone zones z))
at_zone-zones_from (c ∷ cs) zones z =
    let filed = file_contender c.zone (desc_of c) zones in
    let later = at_zone-zones_from cs filed z in
    elim (Bool-cases (str_eq c.zone z)) [
      | inl t ↦
          let here =
            at_zone-file_contender_here c.zone (desc_of c) zones z ((eq_iff c.zone z).0 t) in
          rw t (
            later
            ∙ ap (λ o. joined o (contenders_in z cs)) here
            ∙ joined_later (at_zone zones z) (desc_of c) (contenders_in z cs))
      | inr f ↦
          let same = at_zone-file_contender_other c.zone (desc_of c) zones z f in
          rw f (later ∙ ap (λ o. joined o (contenders_in z cs)) same)
    ]
