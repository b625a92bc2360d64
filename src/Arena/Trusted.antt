-- ===== src/Arena/Trusted.antt =====
-- What is trusted in services/arena/src/ArenaServerService.cpp, and that the authentication of a player
-- keeps it.
use Prim.Native.String.{String}
use text.Mathlib.Text.{◌==◌ as str_eq}
use fy_s.Common.{
  ℕ, ◌≡◌, refl, sym, ap, ◌∙◌, subst, true, ◌&&◌, &&_split, some, List, Bool-cases, Option-cases,
  inl, inr, some_eq, ◌==◌, ==_iff,
}
use mathlib.Core.List.{Memᴰ}
use fy_s.Priority.Ensures.{Ensures, Ensures-done, Outcome-cases}
use fy_s.FightingPit.{AuthenticatedPlayer, creation_error}
use fy_s.Worker.{does_fighting_pit_exist, add_player_identifier}
use fy_s.Worker.Values.{EachValue, Each, Each-filter, Each-Mem}
use fy_s.Arena.{
  FightingPitEncounter, AwaitingPlayerArena, ArenaServerService, ArenaServerValidateAuth, Platform,
  create_awaiting_player, has_to_be_generated, find_awaited, erase_awaited, is_player_awaited,
  create_new_fighting_pit, log_in, enter_created, enter_joined, on_authentication,
  broadcast_new_arriving_team,
}
use fy_s.Encounters.Valid.{at_zone-Mem}
use fy_s.Arena.NewPits.{Waits, none_some}
use fy_s.Arena.Waits.{AllWait, create-AllWait, join-AllWait}

-- The dispatcher told the server that this player creates a pit with this token.
abbrev pub Announced : List FightingPitEncounter → AuthenticatedPlayer → Type 0
Announced log player =
    (m : FightingPitEncounter) × Memᴰ m log
    × (m.user_name ≡ player.name)
    × (m.token_auth ≡ player.token)
    × (m.fighting_pit_id ≡ 0)

-- An awaited player is as a message of the dispatcher has it, under its token.
abbrev pub AsTold : List FightingPitEncounter → String × AwaitingPlayerArena → Type 0
AsTold log e =
    (m : FightingPitEncounter) × Memᴰ m log
    × (e.0 ≡ m.token_auth)
    × (e.1 ≡ create_awaiting_player m)

pub record IsTrusted {ℓ} {S : Type ℓ} {C R : Type 0} (log : List FightingPitEncounter)
    (s : ArenaServerService S C R) : Type 0 where
  pub awaited : Each (AsTold log) s.awaiting_arena
  pub pits : EachValue (Waits (Announced log)) s.worker_service.arena_instances

module _ {ℓ} {S : Type ℓ} {C R : Type 0} (pf : Platform S C R) where
  log_in-AllWait :
      (P : AuthenticatedPlayer → Type 0) (identity name : String) (id : ℕ)
      (s : ArenaServerService S C R)
      → AllWait pf P s.worker_service
      → Ensures
          (log_in pf identity name id s)
          (λ r. AllWait pf P r.0.worker_service × (r.0.awaiting_arena ≡ s.awaiting_arena))
  unfolding log_in add_player_identifier
  log_in-AllWait P identity name id s h =
      elim (Outcome-cases (
        broadcast_new_arriving_team pf (add_player_identifier s.worker_service id name identity) id
          name)) [
            | inl (sent, e) ↦ rw (e, log_in) (h, refl)
            | inr (inl e) ↦ rw (e, log_in) tt
            | inr (inr e) ↦ rw (e, log_in) tt
          ]

  -- A player who is awaited to create a pit was announced to.
  creator-Announced :
      (log : List FightingPitEncounter) (awaiting : List (String × AwaitingPlayerArena))
      (name token : String) (id : ℕ) (apa : AwaitingPlayerArena)
      → Each (AsTold log) awaiting
      → is_player_awaited awaiting name token id ≡ some apa
      → has_to_be_generated apa ≡ true
      → Announced log (record { name = apa.name_player; token = apa.token })
  unfolding is_player_awaited create_awaiting_player find_awaited
  creator-Announced log awaiting name token id apa h e gen =
      elim (Option-cases (find_awaited awaiting token)) [
        | inl n ↦ absurd (none_some (rw (n, is_player_awaited) at e))
        | inr (found, n) ↦
            elim (Bool-cases (str_eq found.name_player name && found.fighting_pit_id == id)) [
              | inr f ↦ absurd (none_some (rw (n, is_player_awaited, f) at e))
              | inl t ↦
                  let same : found ≡ apa = some_eq (rw (n, is_player_awaited, t) at e) in
                  let (key, inside) = at_zone-Mem awaiting token found n in
                  let (m, in_log, key_told, as_told) =
                    Each-Mem (AsTold log) awaiting (key, found) h inside in
                  let whole : apa ≡ create_awaiting_player m = sym same ∙ as_told in
                  let numbered : m.fighting_pit_id ≡ 0 =
                    sym (ap (λ (a : AwaitingPlayerArena). a.fighting_pit_id) whole)
                    ∙ (==_iff apa.fighting_pit_id 0).0
                        (&&_split {x = apa.fighting_pit_id == 0} gen).0 in
                  (
                    m,
                    in_log,
                    sym (ap (λ (a : AwaitingPlayerArena). a.name_player) whole),
                    sym (ap (λ (a : AwaitingPlayerArena). a.token) whole),
                    numbered,
                  )
            ]
      ]

  -- The players that are awaited are as told when one of them is taken out.
  logged-IsTrusted :
      (log : List FightingPitEncounter) (identity name : String) (id : ℕ)
      (s : ArenaServerService S C R)
      → IsTrusted log s
      → Ensures (log_in pf identity name id s) (λ r. IsTrusted log r.0)
  logged-IsTrusted log identity name id s h = elim (Outcome-cases (log_in pf identity name id s)) [
    | inl (r, e) ↦
        let (pits, same) =
          Ensures-done _ (log_in-AllWait (Announced log) identity name id s h.pits) e in
        rw e (record { awaited = subst (Each (AsTold log)) (sym same) h.awaited; pits = pits })
    | inr (inl e) ↦ rw e tt
    | inr (inr e) ↦ rw e tt
  ]

  created-IsTrusted :
      (log : List FightingPitEncounter) (identity : String) (auth : ArenaServerValidateAuth)
      (s : ArenaServerService S C R) (created : ℕ × ArenaServerService S C R)
      → IsTrusted log s
      → AllWait pf (Announced log) created.1.worker_service
        × (created.1.awaiting_arena ≡ s.awaiting_arena)
      → Ensures (enter_created pf identity auth created) (λ r. IsTrusted log r.0)
  unfolding enter_created erase_awaited
  created-IsTrusted log identity auth s (id, s1) h (pits, same) =
      let erased : IsTrusted log
          (record s1 { awaiting_arena = erase_awaited auth.token_auth s1.awaiting_arena }) =
        record {
          awaited =
              Each-filter (AsTold log) _ s1.awaiting_arena
                (subst (Each (AsTold log)) (sym same) h.awaited);
          pits = pits;
        } in
      elim (Bool-cases (id == creation_error)) [
        | inl t ↦ rw t erased
        | inr f ↦ rw f (logged-IsTrusted log identity auth.user_name id _ erased)
      ]

  joined-IsTrusted :
      (log : List FightingPitEncounter) (identity : String) (auth : ArenaServerValidateAuth)
      (awaited : AwaitingPlayerArena) (s : ArenaServerService S C R)
      → IsTrusted log s
      → Ensures (enter_joined pf identity auth awaited s) (λ r. IsTrusted log r.0)
  unfolding enter_joined erase_awaited
  joined-IsTrusted log identity auth awaited s h =
      elim (Bool-cases (does_fighting_pit_exist s.worker_service auth.fighting_pit_id)) [
        | inl t ↦ rw t (
            logged-IsTrusted log identity auth.user_name awaited.fighting_pit_id _ (record {
              awaited = Each-filter (AsTold log) _ s.awaiting_arena h.awaited;
              pits =
                  join-AllWait pf (Announced log) pf.sort_sides awaited.fighting_pit_id _
                    s.cache_state s.worker_service h.pits;
            }))
        | inr f ↦ rw f h
      ]

  pub authentication-IsTrusted :
      (log : List FightingPitEncounter) (identity : String) (auth : ArenaServerValidateAuth)
      (s : ArenaServerService S C R)
      → IsTrusted log s
      → Ensures (on_authentication pf identity auth s) (λ r. IsTrusted log r.0)
  unfolding on_authentication
  authentication-IsTrusted log identity auth s h =
      elim (Option-cases
        (is_player_awaited s.awaiting_arena auth.user_name auth.token_auth auth.fighting_pit_id)) [
          | inl e ↦ rw (e, on_authentication) tt
          | inr (awaited, e) ↦ elim (Bool-cases (has_to_be_generated awaited)) [
            | inl gen ↦ elim (Outcome-cases (create_new_fighting_pit pf awaited s)) [
              | inl (created, c) ↦
                  rw (e, on_authentication, gen, on_authentication, c)
                    (created-IsTrusted log identity auth s created h (
                      Ensures-done _
                        (create-AllWait pf (Announced log) awaited s h.pits (
                          creator-Announced log s.awaiting_arena auth.user_name auth.token_auth
                            auth.fighting_pit_id awaited h.awaited e gen))
                        c))
              | inr (inl u) ↦ rw (e, on_authentication, gen, on_authentication, u) tt
              | inr (inr u) ↦ rw (e, on_authentication, gen, on_authentication, u) tt
            ]
            | inr join ↦
                rw (e, on_authentication, join) (joined-IsTrusted log identity auth awaited s h)
          ]
        ]
