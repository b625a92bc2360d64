-- ===== src/Announcer/Built.antt =====
-- The pits that services/arena/src/fightingPit/FightingPitAnnouncer.cpp builds: their contenders.
use Prim.Native.String.{String}
use text.Mathlib.Text.{◌==◌ as str_eq}
use text.Mathlib.TextEquality.{eq_iff}
use fy_s.Common.{
  ℕ, zero, suc, ◌≤◌, ◌≡◌, ◌⊎◌, Bool, false, any, subst, refl, sym, ap, ap₂, ◌∙◌, true, some, List,
  [], ◌∷◌, ◌++◌, arith, map, length, length-map, Bool-cases, inl, inr,
}
use fy_s.Common.Int.{ℤ, pos}
use mathlib.Core.List.{Memᴰ, append_assoc, append-nil, map-append}
use fy_s.HexagonSide.Sides.{b_s}
use fy_s.HexagonSide.Moves.{HexagonSide, default_side, move, change_side}
use fy_s.HexagonSide.Placed.{placed}
use fy_s.Priority.State.{done}
use fy_s.BoundaryMap.{BoundaryMap, EncounterDesc, get}
use fy_s.Contenders.{FightingContender, ContenderScripting}
use fy_s.Layout.{set_contender_initiate_position}
use fy_s.Scripting.{
  World, ScriptEngine, ScriptCache, load_contender_script, eval_caught, create_contender,
  setup_contender, call_setup, insert_action, get_chai_contender_id,
}
use fy_s.Scripting.Texts.{get_name_from_key}
use fy_s.Actions.{add_contender}
use fy_s.Announcer.{
  Generator, Building, new_contender, place_contender, place_in, get_script_content_string,
  generate_contender, generate_each,
}

-- Who a contender is, and where it stands.
abbrev pub Standing : Type 0
Standing = ContenderScripting × HexagonSide

abbrev pub standing : FightingContender → Standing
standing c = (c.contender_scripting, c.side)

abbrev pub standings {ℓ} : {S : Type ℓ} → World S → List Standing
standings w = map standing w.contenders.contenders

-- The scripts of a platform for the monsters of a zone. The texts that a new pit evaluates are
-- harmless: they change neither the teams nor who the contenders are and where they stand. The script
-- of a monster defines its class, which stays defined whatever is evaluated; a contender of a class
-- that is defined can be created, and set up once it is. Any other text may fail.
pub record IsCalm {ℓ} {S : Type ℓ} {C : Type 0} (engine : ScriptEngine S) (cache : ScriptCache C)
    (zone : List EncounterDesc) : Type ℓ where
  pub harmless : String → Bool
  pub of_cache : (key : String) (c : C) → harmless (cache.find_in_cache key c).0 ≡ true
  pub of_insert : (key name : String) (level : ℕ) → harmless (insert_action key name level) ≡ true
  pub of_create : (c : ContenderScripting) → harmless (create_contender c) ≡ true
  pub of_setup : (c : ContenderScripting) → harmless (call_setup c) ≡ true
  pub keeps_teams :
      (s : String) (w : World S)
      → harmless s ≡ true
      → (engine.eval s w).1.party_teams ≡ w.party_teams
  pub keeps_standings :
      (s : String) (w : World S) → harmless s ≡ true → standings (engine.eval s w).1 ≡ standings w
  pub defined : S → String → Bool
  pub created : S → String → Bool
  pub there :
      (d : EncounterDesc) (c : C) → Memᴰ d zone → str_eq (cache.find_in_cache d.key c).0 "" ≡ false
  pub defines :
      (d : EncounterDesc) (c : C) (w : World S)
      → Memᴰ d zone
      → defined (engine.eval (cache.find_in_cache d.key c).0 w).1.scripts (get_name_from_key d.key)
        ≡ true
  pub stays :
      (s : String) (w : World S) (name : String)
      → defined w.scripts name ≡ true
      → defined (engine.eval s w).1.scripts name ≡ true
  pub creates :
      (c : ContenderScripting) (w : World S)
      → defined w.scripts c.contender_name ≡ true
      → ((engine.eval (create_contender c) w).0 ≡ true)
        × (created (engine.eval (create_contender c) w).1.scripts (get_chai_contender_id c) ≡ true)
  pub sets_up :
      (c : ContenderScripting) (w : World S)
      → defined w.scripts c.contender_name ≡ true
      → created w.scripts (get_chai_contender_id c) ≡ true
      → (engine.eval (call_setup c) w).0 ≡ true

-- The documented behaviour of `std::uniform_int_distribution`.
pub record IsInRange {R : Type 0} (generator : Generator R) : Type 0 where
  pub within :
      (lo hi : ℕ) (r : R)
      → lo ≤ hi
      → (lo ≤ (generator.generate_in_range lo hi r).0)
        × ((generator.generate_in_range lo hi r).0 ≤ hi)

-- Every number up to 100 draws a monster of the zone.
abbrev pub Draws : BoundaryMap EncounterDesc → List EncounterDesc → Type 0
Draws bm zone =
    (rng : ℕ) → rng ≤ 100 → (e : ℤ × EncounterDesc) × (get bm (pos rng) ≡ some e) × Memᴰ e.1 zone

-- The contender number `i`: a monster of the zone, of a level from 1 to 10, on the side B_S.
pub record IsGenerated (zone : List EncounterDesc) (i : ℕ) (s : Standing) : Type 0 where
  pub desc : EncounterDesc
  pub of_zone : Memᴰ desc zone
  pub named : s.0.contender_name ≡ get_name_from_key desc.key
  pub numbered : s.0.contender_id ≡ i
  pub level_low : 1 ≤ s.0.level
  pub level_high : s.0.level ≤ 10
  pub south : s.1 ≡ placed b_s

-- From the number `i` on.
abbrev pub AllGenerated : List EncounterDesc → ℕ → List Standing → Type 0
AllGenerated zone i [] = Unit
AllGenerated zone i (s ∷ ss) = IsGenerated zone i s × AllGenerated zone (suc i) ss

initiate_standing :
    (c : FightingContender) (s : ContenderScripting)
    → standing c ≡ (s, default_side)
    → standing (set_contender_initiate_position c b_s) ≡ (s, placed b_s)
unfolding set_contender_initiate_position move change_side
initiate_standing c s e =
    let side : c.side ≡ default_side = ap (λ (p : Standing). p.1) e in
    let named : c.contender_scripting ≡ s = ap (λ (p : Standing). p.0) e in rw (side, named) refl

place_last :
    (ss : List Standing) (cs : List FightingContender) (s : ContenderScripting)
    → map standing cs ≡ ss ++ (s, default_side) ∷ []
    → map standing (place_contender (length ss) cs) ≡ ss ++ (s, placed b_s) ∷ []
unfolding place_contender
place_last [] [] s e = absurd (cc)
place_last [] (c ∷ []) s e =
    let own : standing c ≡ (s, default_side) = cc in ap (λ x. x ∷ []) (initiate_standing c s own)
place_last [] (c ∷ d ∷ cs) s e = absurd (cc)
place_last (t ∷ ss) [] s e = absurd (cc)
place_last (t ∷ ss) (c ∷ cs) s e =
    let own : standing c ≡ t = cc in
    let rest : map standing cs ≡ ss ++ (s, default_side) ∷ [] = cc in
    ap₂ ◌∷◌ own (place_last ss cs s rest)

-- The same teams, the contenders stand as they did, with these behind them, and what was defined
-- still is.
pub record Continues {ℓ} {S : Type ℓ} (defined : S → String → Bool) (w w' : World S)
    (ss : List Standing) : Type ℓ where
  pub teams : w'.party_teams ≡ w.party_teams
  pub stand : standings w' ≡ standings w ++ ss
  pub known : (name : String) → defined w.scripts name ≡ true → defined w'.scripts name ≡ true

pub same-Continues {ℓ} :
    {S : Type ℓ} (defined : S → String → Bool) (w : World S) → Continues defined w w []
same-Continues defined w = record { teams = refl; stand = sym (append-nil _); known = λ name h. h }

module _ {ℓ} {S : Type ℓ} {C : Type 0} (engine : ScriptEngine S) (cache : ScriptCache C)
    (zone : List EncounterDesc) (calm : IsCalm engine cache zone) where
  pub eval-Continues :
      (script : String) (w : World S)
      → calm.harmless script ≡ true
      → Continues calm.defined w (engine.eval script w).1 []
  eval-Continues script w h = record {
    teams = calm.keeps_teams script w h;
    stand = calm.keeps_standings script w h ∙ sym (append-nil _);
    known = calm.stays script w;
  }

  pub Continues-trans :
      {w w' w'' : World S} {ss ts : List Standing}
      → Continues calm.defined w w' ss
      → Continues calm.defined w' w'' ts
      → Continues calm.defined w w'' (ss ++ ts)
  Continues-trans {w = w} {ss = ss} {ts = ts} f g = record {
    teams = g.teams ∙ f.teams;
    stand = g.stand ∙ ap (λ l. l ++ ts) f.stand ∙ append_assoc (standings w) ss ts;
    known = λ name h. g.known name (f.known name h);
  }

  pub caught-Continues :
      (script : String) (w : World S)
      → calm.harmless script ≡ true
      → Continues calm.defined w (eval_caught engine script w) []
  caught-Continues script w h = elim (Bool-cases (str_eq script "")) [
    | inl t ↦ rw t (same-Continues calm.defined w)
    | inr f ↦ rw f (eval-Continues script w h)
  ]

  -- A contender whose class is defined behind its script.
  load-Continues :
      (c : ContenderScripting) (script : String) (w : World S)
      → Continues calm.defined w (eval_caught engine script w) []
      → calm.defined (eval_caught engine script w).scripts c.contender_name ≡ true
      → (w' : World S) × (load_contender_script engine c script w ≡ some w')
        × Continues calm.defined w w' []
        × (calm.defined w'.scripts c.contender_name ≡ true)
        × (calm.created w'.scripts (get_chai_contender_id c) ≡ true)
        × ((name : String)
            → calm.defined (eval_caught engine script w).scripts name ≡ true
            → calm.defined w'.scripts name ≡ true)
  unfolding load_contender_script
  load-Continues c script w first def =
      let loaded : World S = eval_caught engine script w in
      let (ok, made) = calm.creates c loaded def in
      let second = eval-Continues (create_contender c) loaded (calm.of_create c) in
      (
        (engine.eval (create_contender c) loaded).1,
        rw ok refl,
        Continues-trans first second,
        second.known c.contender_name def,
        made,
        second.known,
      )

  -- A contender that is added with no position.
  add-Continues :
      (c : FightingContender) (w : World S)
      → calm.defined w.scripts c.contender_scripting.contender_name ≡ true
      → calm.created w.scripts (get_chai_contender_id c.contender_scripting) ≡ true
      → ((add_contender engine c w).0 ≡ true)
        × Continues calm.defined w (add_contender engine c w).1 (standing c ∷ [])
  unfolding add_contender setup_contender
  add-Continues c w def made =
      let harmless = calm.of_setup c.contender_scripting in
      (
        calm.sets_up c.contender_scripting _ def made,
        record {
          teams = calm.keeps_teams _ _ harmless;
          stand =
              calm.keeps_standings _ _ harmless
              ∙ map-append standing w.contenders.contenders (c ∷ []);
          known = calm.stays _ _;
        },
      )

-- The contender that was added with no position gets one.
placed-Continues {ℓ} :
    {S : Type ℓ} (defined : S → String → Bool) (c : ContenderScripting) (w w' : World S)
    → Continues defined w w' ((c, default_side) ∷ [])
    → Continues defined w (place_in (length w.contenders.contenders) w') ((c, placed b_s) ∷ [])
unfolding place_in
placed-Continues defined c w w' f = record {
  teams = f.teams;
  stand =
      ap (λ k. map standing (place_contender k w'.contenders.contenders))
        (sym (length-map standing w.contenders.contenders))
      ∙ place_last (standings w) w'.contenders.contenders c f.stand;
  known = f.known;
}

-- The classes of these scripts are defined.
abbrev pub AllDefined {ℓ} : {S : Type ℓ} → (S → String → Bool) → List String → S → Type 0
AllDefined defined loaded scripts =
    (name : String) → any (λ s. str_eq s name) loaded ≡ true → defined scripts name ≡ true

any-snoc :
    (loaded : List String) (name other : String)
    → any (λ s. str_eq s other) (loaded ++ name ∷ []) ≡ true
    → (any (λ s. str_eq s other) loaded ≡ true) ⊎ (name ≡ other)
any-snoc [] name other h = elim (Bool-cases (str_eq name other)) [
  | inl t ↦ inr ((eq_iff name other).0 t)
  | inr f ↦ absurd (cc (rw f at h))
]
any-snoc (s ∷ loaded) name other h = elim (Bool-cases (str_eq s other)) [
  | inl t ↦ inl (rw t refl)
  | inr f ↦ rw f (any-snoc loaded name other (rw f at h))
]

module _ {ℓ} {S : Type ℓ} {C R : Type 0} (cache : ScriptCache C) (engine : ScriptEngine S)
    (generator : Generator R) (unset_speed : ℕ) (zone : List EncounterDesc)
    (calm : IsCalm engine cache zone) (in_range : IsInRange generator)
    (bm : BoundaryMap EncounterDesc) (draws : Draws bm zone) where
  -- The script of a monster of the zone is evaluated, or was before.
  script-AllDefined :
      (d : EncounterDesc) (loaded : List String) (c : C) (w : World S)
      → Memᴰ d zone
      → AllDefined calm.defined loaded w.scripts
      → (let name = get_name_from_key d.key in
          let (script, loaded', c') = get_script_content_string cache name d loaded c in
          Continues calm.defined w (eval_caught engine script w) []
          × (calm.defined (eval_caught engine script w).scripts name ≡ true)
          × AllDefined calm.defined loaded' (eval_caught engine script w).scripts)
  unfolding get_script_content_string
  script-AllDefined d loaded c w inside all =
      let name = get_name_from_key d.key in
      elim (Bool-cases (any (λ s. str_eq s name) loaded)) [
        | inl t ↦ rw t (same-Continues calm.defined w, all name t, all)
        | inr f ↦
            let script = (cache.find_in_cache d.key c).0 in
            let first = caught-Continues engine cache zone calm script w (calm.of_cache d.key c) in
            let def : calm.defined (eval_caught engine script w).scripts name ≡ true =
              rw (calm.there d c inside) (calm.defines d c w inside) in
            rw f (
              first,
              def,
              λ other h. elim (any-snoc loaded name other h) [
                | inl before ↦ first.known other (all other before)
                | inr same ↦
                    subst (λ x. calm.defined (eval_caught engine script w).scripts x ≡ true) same
                      def
              ],
            )
      ]

  generate_contender-Continues :
      (i : ℕ) (b : Building S C R)
      → AllDefined calm.defined b.loaded b.world.scripts
      → (b' : Building S C R) × (s : Standing) × (generate_contender cache engine generator
            unset_speed bm i b
          ≡ done (true, b'))
        × Continues calm.defined b.world b'.world (s ∷ [])
        × AllDefined calm.defined b'.loaded b'.world.scripts
        × IsGenerated zone i s
  unfolding generate_contender
  generate_contender-Continues i b known =
      let (rng, r1) = generator.generate_in_range 0 100 b.random in
      let (e, found, of_zone) = draws rng (in_range.within 0 100 b.random (omega arith)).1 in
      let (level, r2) = generator.generate_in_range 1 10 r1 in
      let (low, high) = in_range.within 1 10 r1 (omega arith) in
      let name = get_name_from_key e.1.key in
      let scripting : ContenderScripting = record {
        contender_name = name;
        level = level;
        contender_id = i;
      } in
      let (script, loaded, c) = get_script_content_string cache name e.1 b.loaded b.scripts_cache in
      let (first, def, all) =
        script-AllDefined e.1 b.loaded b.scripts_cache b.world of_zone known in
      let (w, loads, f, def', made, still_known) =
        load-Continues engine cache zone calm scripting script b.world first def in
      let (ok, g) =
        add-Continues engine cache zone calm (new_contender unset_speed scripting) w def' made in
      let n : ℕ = length w.contenders.contenders in
      let w' : World S = (add_contender engine (new_contender unset_speed scripting) w).1 in
      (
        record { loaded = loaded; scripts_cache = c; random = r2; world = place_in n w' },
        (scripting, placed b_s),
        rw (generate_contender, found, generate_contender, loads, ok) refl,
        Continues-trans engine cache zone calm f (placed-Continues calm.defined scripting w w' g),
        λ name h. g.known name (still_known name (all name h)),
        record {
          desc = e.1;
          of_zone = of_zone;
          named = refl;
          numbered = refl;
          level_low = low;
          level_high = high;
          south = refl;
        },
      )

  pub generate_each-Continues :
      (n i : ℕ) (b : Building S C R)
      → AllDefined calm.defined b.loaded b.world.scripts
      → (b' : Building S C R) × (ss : List Standing) × (generate_each cache engine generator
            unset_speed bm n i b
          ≡ done (true, b'))
        × Continues calm.defined b.world b'.world ss
        × (length ss ≡ n)
        × AllGenerated zone i ss
  unfolding generate_each
  generate_each-Continues zero i b known =
      (b, [], refl, same-Continues calm.defined b.world, refl, tt)
  generate_each-Continues (suc n) i b known =
      let (b1, s, made, f, still, g) = generate_contender-Continues i b known in
      let (b2, ss, rest, f', counted, gs) = generate_each-Continues n (suc i) b1 still in
      (
        b2,
        s ∷ ss,
        rw (made, rest) refl,
        Continues-trans engine cache zone calm f f',
        ap suc counted,
        (g, gs),
      )
