-- ===== src/Arena/NewPits.antt =====
-- A pit that services/arena/src/fightingPit/FightingPitAnnouncer.cpp has built for the arena server.
use Prim.Native.String.{String}
use text.Mathlib.Text.{◌==◌ as str_eq}
use fy_s.Common.{
  ℕ, ◌≡◌, refl, Bool, true, false, ◌||◌, Option, some, List, ◌++◌, Bool-cases, Option-cases, inl,
  inr, map,
}
use mathlib.Core.Option.{none}
use fy_s.CommonTypes.{PriorityElem}
use fy_s.Priority.Ensures.{Ensures, Ensures-done, Outcome-cases}
use fy_s.Encounters.{EncounterContext, zone_registered}
use fy_s.Team.Party.{PartyTeam}
use fy_s.SideBattle.{SideBattle, new_side_battle}
use fy_s.Scripting.{ScriptEngine, ScriptCache}
use fy_s.FightingPit.{
  initialize_each, side_order, FightingPit, AuthenticatedPlayer, on_hold,
  add_party_team_and_register_actions, add_authenticated_user, initialize_side_battles,
}
use fy_s.Announcer.{
  FightingPitAnnouncer, Generator, generate_contenders, prepare_fighting_pit, complete_fighting_pit,
  build_fighting_pit,
}
use fy_s.Worker.Values.{Each}

pub none_some {ℓ} : {A : Type ℓ} {a : A} → none ≡ some a → ⊥
none_some e = cc

-- The pit waits, and whoever is authenticated in it has the property.
abbrev pub Waits {ℓ} : {S : Type ℓ} → (AuthenticatedPlayer → Type 0) → FightingPit S → Type 0
Waits P fp = (fp.ending ≡ on_hold) × Each P fp.authenticated_players

-- What a builder leaves: no pit, or one that waits.
abbrev pub NewPit {ℓ} :
    {S : Type ℓ} {C R : Type 0}
    → (AuthenticatedPlayer → Type 0)
    → Option (FightingPit S) × C × R
    → Type 0
NewPit P (none, c, r) = Unit
NewPit P (some fp, c, r) = Waits P fp

module _ {ℓ} {S : Type ℓ} {C R : Type 0} (cache : ScriptCache C) (engine : ScriptEngine S)
    (generator : Generator R) (unset_speed : ℕ)
    (sort_sides : (SideBattle → SideBattle → Bool) → List SideBattle → List SideBattle)
    (sort : List PriorityElem → List PriorityElem) (fuel : ℕ)
    (P : AuthenticatedPlayer → Type 0) where
  initialize-Waits :
      (fp : FightingPit S) → Waits P fp → Ensures (initialize_side_battles sort fuel fp) (Waits P)
  unfolding initialize_side_battles
  initialize-Waits fp h =
      elim (Outcome-cases (
        initialize_each sort fuel fp.world.contenders fp.world.party_teams
          (fp.side_battles ++ map new_side_battle side_order))) [
            | inl (bs, e) ↦ rw e h
            | inr (inl e) ↦ rw e tt
            | inr (inr e) ↦ rw e tt
          ]

  complete-Waits :
      (ctx : EncounterContext) (ws_id : String) (a : FightingPitAnnouncer) (c : C) (r : R)
      (fp : FightingPit S)
      → Waits P fp
      → Ensures
          (complete_fighting_pit cache engine generator unset_speed sort_sides sort fuel ctx ws_id a
            c r fp)
          (NewPit P)
  unfolding complete_fighting_pit
  complete-Waits ctx ws_id a c r fp h =
      elim (Outcome-cases (
        generate_contenders cache engine generator unset_speed ctx ws_id a.difficulty
          (record { loaded = a.loaded_script; scripts_cache = c; random = r; world = fp.world }))) [
            | inl ((true, b), e) ↦
                elim (Outcome-cases
                  (initialize_side_battles sort fuel (record fp { world = b.world }))) [
                    | inl (fp', e') ↦
                        rw (e, complete_fighting_pit, e')
                          (Ensures-done (Waits P)
                            (initialize-Waits (record fp { world = b.world }) h) e')
                    | inr (inl e') ↦ rw (e, complete_fighting_pit, e') tt
                    | inr (inr e') ↦ rw (e, complete_fighting_pit, e') tt
                  ]
            | inl ((false, b), e) ↦ rw e tt
            | inr (inl e) ↦ rw e tt
            | inr (inr e) ↦ rw e tt
          ]

  prepare-Waits :
      (fresh : S) (arena_id : ℕ) (a : FightingPitAnnouncer) (pt : PartyTeam) (c : C)
      → P (record { name = a.creator_user_name; token = a.creator_user_token })
      → Waits P
          (prepare_fighting_pit cache engine generator unset_speed sort_sides fresh arena_id a pt
            c).1
  unfolding prepare_fighting_pit add_party_team_and_register_actions add_authenticated_user
  prepare-Waits fresh arena_id a pt c p = (refl, (p, tt))

  pub build-Waits :
      (ctx : EncounterContext) (ws_id : String) (fresh : S) (arena_id : ℕ)
      (a : FightingPitAnnouncer) (c : C) (r : R)
      → P (record { name = a.creator_user_name; token = a.creator_user_token })
      → Ensures
          (build_fighting_pit cache engine generator unset_speed sort_sides sort fuel ctx ws_id
            fresh arena_id a c r)
          (NewPit P)
  unfolding build_fighting_pit
  build-Waits ctx ws_id fresh arena_id a c r p = elim (Option-cases a.creator_party_team) [
    | inl e ↦ rw e tt
    | inr (pt, e) ↦
        elim (Bool-cases (str_eq a.creator_user_name "" || str_eq a.creator_user_token "")) [
          | inl t ↦ rw (e, build_fighting_pit, t) tt
          | inr f ↦ elim (Bool-cases (zone_registered ctx ws_id)) [
            | inr g ↦ rw (e, build_fighting_pit, f, g) tt
            | inl z ↦
                rw (e, build_fighting_pit, f, z)
                  (complete-Waits ctx ws_id a
                    (prepare_fighting_pit cache engine generator unset_speed sort_sides fresh
                      arena_id a pt c).0
                    r _ (prepare-Waits fresh arena_id a pt c p))
          ]
        ]
  ]
