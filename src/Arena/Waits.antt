-- ===== src/Arena/Waits.antt =====
-- What the operations of services/arena/src/ArenaServerService.cpp do to a property of the players
-- who are authenticated in its pits, and of no pit's start.
use Prim.Native.String.{String}
use fy_s.Common.{
  ℕ, ◌≡◌, refl, ap, ◌∙◌, subst, Bool, Option, some, List, Bool-cases, Option-cases, inl, inr,
  some_eq, leb, length, uint_mod, ◌-◌,
}
use mathlib.Core.Option.{none}
use fy_s.Priority.Ensures.{Ensures, Ensures-done, Outcome-cases}
use fy_s.Team.Party.{PartyTeam}
use fy_s.Team.Allies.{get_specific_team_member_by_id}
use fy_s.SideBattle.{SideBattle}
use fy_s.FightingPit.{
  FightingPit, AuthenticatedPlayer, add_party_team_and_register_actions,
  forward_message_to_team_member, is_player_participant,
}
use fy_s.Announcer.{set_encounter_id}
use fy_s.Worker.{
  WorkerService, lookup, add_fighting_pit, next_id, player_join_fighting_pit,
  get_authenticated_player_fighting_pit,
}
use fy_s.Worker.Values.{EachValue, lookup-EachValue, assign-EachValue}
use fy_s.Arena.{
  AwaitingArena, AwaitingPlayerArena, ArenaServerService, ArenaServerValidateAuth, Platform,
  announcer_for, build_awaited, store_built, create_new_fighting_pit, on_in_game,
}
use fy_s.Arena.NewPits.{NewPit, Waits, build-Waits, none_some}

module _ {ℓ} {S : Type ℓ} {C R : Type 0} (pf : Platform S C R) where
  -- The pits of a server all wait.
  abbrev pub AllWait : (AuthenticatedPlayer → Type 0) → WorkerService S → Type 0
  AllWait P ws = EachValue (Waits P) ws.arena_instances

  add_fighting_pit-AllWait :
      (P : AuthenticatedPlayer → Type 0) (fuel : ℕ) (ws : WorkerService S)
      (fp : Option (FightingPit S)) (id : ℕ) (ws' : WorkerService S)
      → AllWait P ws
      → ((p : FightingPit S) → fp ≡ some p → Waits P p)
      → add_fighting_pit fuel ws fp ≡ some (id, ws')
      → AllWait P ws'
  unfolding add_fighting_pit
  add_fighting_pit-AllWait P fuel ws none id ws' h new e =
      subst (λ (x : WorkerService S). AllWait P x)
        (ap (λ (x : ℕ × WorkerService S). x.1) (some_eq e)) h
  add_fighting_pit-AllWait P fuel ws (some p) id ws' h new e =
      elim (Bool-cases (leb (uint_mod - 1) (length ws.arena_instances))) [
        | inl t ↦
            subst (λ (x : WorkerService S). AllWait P x)
              (ap (λ (x : ℕ × WorkerService S). x.1) (some_eq (rw t at e))) h
        | inr f ↦ elim (Option-cases (next_id fuel ws.arena_instances ws.current_arena_id)) [
          | inl n ↦ absurd (none_some (rw (f, n) at e))
          | inr (next, n) ↦
              subst (λ (x : WorkerService S). AllWait P x)
                (ap (λ (x : ℕ × WorkerService S). x.1) (some_eq (rw (f, n) at e)))
                (assign-EachValue (Waits P) ws.arena_instances next _ h (new p refl))
        ]
      ]

  build_awaited-Waits :
      (P : AuthenticatedPlayer → Type 0) (awaited : AwaitingPlayerArena) (gen : AwaitingArena)
      (s : ArenaServerService S C R)
      → P (record { name = awaited.name_player; token = awaited.token })
      → Ensures (build_awaited pf awaited gen s) (NewPit P)
  unfolding build_awaited announcer_for set_encounter_id
  build_awaited-Waits P awaited gen s p =
      build-Waits pf.cache pf.engine pf.generator pf.unset_speed pf.sort_sides pf.sort pf.fuel P
        pf.encounter_context gen.server_code pf.fresh_scripts pf.unset_arena_id
        (announcer_for awaited gen) s.cache_state s.random p

  new_pit :
      (P : AuthenticatedPlayer → Type 0) (fp : Option (FightingPit S)) (c : C) (r : R)
      (q : FightingPit S)
      → fp ≡ some q
      → NewPit P (fp, c, r)
      → Waits P q
  new_pit P none c r q e h = absurd (cc)
  new_pit P (some p) c r q e h = subst (Waits P) (some_eq e) h

  get_authenticated-lookup :
      (ws : WorkerService S) (name token : String) (id : ℕ) (fp : FightingPit S)
      → get_authenticated_player_fighting_pit ws name token id ≡ some fp
      → lookup ws.arena_instances id ≡ some fp
  unfolding get_authenticated_player_fighting_pit
  get_authenticated-lookup ws name token id fp e =
      elim (Option-cases (lookup ws.arena_instances id)) [
        | inl n ↦ absurd (none_some (rw (n, get_authenticated_player_fighting_pit) at e))
        | inr (p, l) ↦ elim (Bool-cases (is_player_participant p name token)) [
          | inl t ↦ l ∙ rw (l, get_authenticated_player_fighting_pit, t) at e
          | inr f ↦ absurd (none_some (rw (l, get_authenticated_player_fighting_pit, f) at e))
        ]
      ]

  forward-Waits :
      (P : AuthenticatedPlayer → Type 0) (fp : FightingPit S) (name : String) (id : ℕ)
      → Waits P fp
      → Waits P (forward_message_to_team_member fp name id)
  unfolding forward_message_to_team_member
  forward-Waits P fp name id h =
      elim (Option-cases (get_specific_team_member_by_id fp.world.party_teams name id)) [
        | inl e ↦ rw (e, forward_message_to_team_member) h
        | inr (m, e) ↦ rw (e, forward_message_to_team_member) h
      ]

  store-AllWait :
      (P : AuthenticatedPlayer → Type 0) (built : Option (FightingPit S) × C × R)
      (s : ArenaServerService S C R)
      → AllWait P s.worker_service
      → NewPit P built
      → Ensures (store_built pf built s) (λ created.
        AllWait P created.1.worker_service × (created.1.awaiting_arena ≡ s.awaiting_arena))
  unfolding store_built
  store-AllWait P (fp, c, r) s h new =
      elim (Option-cases (add_fighting_pit pf.id_fuel s.worker_service fp)) [
        | inl n ↦ rw (n, store_built) tt
        | inr ((id, ws), n) ↦
            rw (n, store_built)
              (
                add_fighting_pit-AllWait P pf.id_fuel s.worker_service fp id ws h
                    (λ q same. new_pit P fp c r q same new) n,
                refl,
              )
      ]

  pub create-AllWait :
      (P : AuthenticatedPlayer → Type 0) (awaited : AwaitingPlayerArena)
      (s : ArenaServerService S C R)
      → AllWait P s.worker_service
      → P (record { name = awaited.name_player; token = awaited.token })
      → Ensures (create_new_fighting_pit pf awaited s) (λ created.
        AllWait P created.1.worker_service × (created.1.awaiting_arena ≡ s.awaiting_arena))
  unfolding create_new_fighting_pit
  create-AllWait P awaited s h p = elim (Option-cases awaited.gen) [
    | inl e ↦ rw e tt
    | inr (gen, e) ↦ elim (Outcome-cases (build_awaited pf awaited gen s)) [
      | inr (inl u) ↦ rw (e, create_new_fighting_pit, u) tt
      | inr (inr u) ↦ rw (e, create_new_fighting_pit, u) tt
      | inl (built, b) ↦
          rw (e, create_new_fighting_pit, b)
            (store-AllWait P built s h
              (Ensures-done (NewPit P) (build_awaited-Waits P awaited gen s p) b))
    ]
  ]

  pub join-AllWait :
      (P : AuthenticatedPlayer → Type 0)
      (sort_sides : (SideBattle → SideBattle → Bool) → List SideBattle → List SideBattle) (id : ℕ)
      (pt : PartyTeam) (c : C) (ws : WorkerService S)
      → AllWait P ws
      → AllWait P (player_join_fighting_pit pf.engine pf.cache sort_sides id pt c ws).1
  unfolding player_join_fighting_pit add_party_team_and_register_actions
  join-AllWait P sort_sides id pt c ws h = elim (Option-cases (lookup ws.arena_instances id)) [
    | inl e ↦ rw (e, player_join_fighting_pit) h
    | inr (fp, e) ↦
        rw (e, player_join_fighting_pit)
          (assign-EachValue (Waits P) ws.arena_instances id _ h
            (lookup-EachValue (Waits P) ws.arena_instances id fp h e))
  ]

  pub in_game-AllWait :
      (P : AuthenticatedPlayer → Type 0) (auth : ArenaServerValidateAuth)
      (s : ArenaServerService S C R)
      → AllWait P s.worker_service
      → AllWait P (on_in_game pf auth s).worker_service
        × ((on_in_game pf auth s).awaiting_arena ≡ s.awaiting_arena)
  unfolding on_in_game
  in_game-AllWait P auth s h =
      elim (Option-cases (
        get_authenticated_player_fighting_pit s.worker_service auth.user_name auth.token_auth
          auth.fighting_pit_id)) [
            | inl e ↦ rw (e, on_in_game) (h, refl)
            | inr (fp, e) ↦
                rw (e, on_in_game)
                  (
                    assign-EachValue (Waits P) s.worker_service.arena_instances auth.fighting_pit_id
                        _ h
                        (forward-Waits P fp auth.user_name 0 (
                          lookup-EachValue (Waits P) s.worker_service.arena_instances
                            auth.fighting_pit_id fp h
                            (get_authenticated-lookup s.worker_service auth.user_name
                              auth.token_auth auth.fighting_pit_id fp e))),
                    refl,
                  )
          ]
