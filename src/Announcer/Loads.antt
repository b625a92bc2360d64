-- ===== src/Announcer/Loads.antt =====
-- What services/arena/src/fightingPit/FightingPitAnnouncer.cpp draws from a zone, and loads for a
-- party.
use Prim.Native.String.{String}
use fy_s.Common.{
  ℕ, uint_mod, ◌<◌, ◌≡◌, refl, sym, subst, ◌∙◌, true, Option, some, List, [], ◌∷◌, arith,
  Bool-cases, some_eq, leb, ◌-◌, inl, inr,
}
use fy_s.Common.Int.{ℤ, pos}
use mathlib.Core.Option.{none}
use mathlib.Core.Option
use mathlib.Core.List.{Memᴰ}
use fy_s.BoundaryMap.{BoundaryMap, EncounterDesc, get, make_contender_rng_boundary_map}
use fy_s.BoundaryMap.Draw.{Chances, total, drawn}
use fy_s.Encounters.{EncounterContext, validate_encounter_context}
use fy_s.Encounters.Valid.{valid_context_draws}
use fy_s.Team.Member.{TeamMember}
use fy_s.Scripting.{
  World, ScriptEngine, ScriptCache, register_base_actions, register_each, load_actions,
  insert_action, get_action_name_from_key, load_members, base_actions,
}
use fy_s.Scripting.Texts.{concat}
use fy_s.Announcer.Built.{
  IsCalm, Draws, Continues, same-Continues, eval-Continues, caught-Continues, Continues-trans,
}

drawn-Mem :
    (i rng : ℕ) (cs : List ℕ) (ds : List EncounterDesc) (d : EncounterDesc)
    → drawn i rng cs ds ≡ some d
    → Memᴰ d ds
drawn-Mem i rng [] ds d e = absurd (cc)
drawn-Mem i rng (c ∷ cs) [] d e = absurd (cc)
drawn-Mem i rng (c ∷ cs) (d' ∷ ds) d e = elim (Bool-cases (leb rng c)) [
  | inl t ↦ Memᴰ.head (sym (some_eq (rw t at e)))
  | inr f ↦ Memᴰ.tail (drawn-Mem i (rng - c) cs ds d (rw f at e))
]

-- The entry behind the element that was found, which has the property that the element has.
map-eq-some :
    (o : Option (ℤ × EncounterDesc)) (d : EncounterDesc) (P : EncounterDesc → Type 0)
    → Option.map (λ (e : ℤ × EncounterDesc). e.1) o ≡ some d
    → P d
    → (e : ℤ × EncounterDesc) × (o ≡ some e) × P e.1
map-eq-some none d P e h = absurd (cc)
map-eq-some (some e) d P same h = (e, refl, subst P (sym (some_eq same)) h)

-- In a validated context the map of a zone draws from it.
pub zone-Draws :
    (ctx : EncounterContext) (zone : String × List EncounterDesc) (i : ℕ) (cs : List ℕ)
    → validate_encounter_context ctx ≡ true
    → Memᴰ zone ctx.contenders_per_zone
    → i < 3
    → Chances i cs zone.1
    → total i cs < uint_mod
    → (bm : BoundaryMap EncounterDesc) × (make_contender_rng_boundary_map zone.1 i ≡ some bm)
      × Draws bm zone.1
zone-Draws ctx zone i cs valid inside lt chances small =
    let (bm, d, makes, e, f) =
      valid_context_draws ctx zone i 0 cs valid inside lt chances small (omega arith) in
    (
      bm,
      makes,
      λ rng le.
          let (bm', d', makes', gets, draws) =
            valid_context_draws ctx zone i rng cs valid inside lt chances small le in
          let same : bm' ≡ bm = some_eq (sym makes' ∙ makes) in
          map-eq-some (get bm (pos rng)) d' (λ d. Memᴰ d zone.1) (rw same at gets)
            (drawn-Mem i rng cs zone.1 d' draws),
    )

module _ {ℓ} {S : Type ℓ} {C : Type 0} (engine : ScriptEngine S) (cache : ScriptCache C)
    (zone : List EncounterDesc) (calm : IsCalm engine cache zone) where
  register_each-Continues :
      (keys : List String) (c : C) (w : World S)
      → Continues calm.defined w (register_each engine cache keys c w).1 []
  unfolding register_each
  register_each-Continues [] c w = same-Continues calm.defined w
  register_each-Continues (key ∷ keys) c w =
      Continues-trans engine cache zone calm
        (caught-Continues engine cache zone calm _ w (calm.of_cache key c))
        (register_each-Continues keys _ _)

  load_actions-Continues :
      (key : String) (ds : List (String × ℕ)) (c : C) (w : World S)
      → Continues calm.defined w (load_actions engine cache key ds c w).2 []
  unfolding load_actions
  load_actions-Continues key [] c w = same-Continues calm.defined w
  load_actions-Continues key (d ∷ ds) c w =
      let (script, c') = cache.find_in_cache d.0 c in
      let create_var = insert_action key (get_action_name_from_key d.0) d.1 in
      let loaded : World S = (engine.eval script w).1 in
      let both =
        Continues-trans engine cache zone calm
          (eval-Continues engine cache zone calm script w (calm.of_cache d.0 c))
          (eval-Continues engine cache zone calm create_var loaded (calm.of_insert _ _ _)) in
      elim (Bool-cases (engine.eval create_var loaded).0) [
        | inl t ↦
            rw t (Continues-trans engine cache zone calm both (load_actions-Continues key ds _ _))
        | inr f ↦ rw f both
      ]

  pub load_members-Continues :
      (user : String) (ms : List TeamMember) (c : C) (w : World S)
      → Continues calm.defined w (load_members engine cache user ms c w).2 []
  unfolding load_members
  load_members-Continues user [] c w = same-Continues calm.defined w
  load_members-Continues user (m ∷ ms) c w =
      elim (Bool-cases
        (load_actions engine cache (concat (user ∷ "_" ∷ m.name ∷ [])) m.actions_doable c w).0) [
          | inl t ↦ rw t (
              Continues-trans engine cache zone calm (load_actions-Continues _ m.actions_doable c w)
                (load_members-Continues user ms _ _))
          | inr f ↦ rw f (load_actions-Continues _ m.actions_doable c w)
        ]

  pub base-Continues :
      (c : C) (w : World S) → Continues calm.defined w (register_base_actions engine cache c w).1 []
  unfolding register_base_actions
  base-Continues c w = register_each-Continues base_actions c w
