-- ===== src/Arena/Safety.antt =====
-- Who is authenticated in the pits of services/arena/src/ArenaServerService.cpp, and that no pit
-- fights.
use Prim.Native.String.{String}
use text.Mathlib.Text.{◌==◌ as str_eq}
use text.Mathlib.TextEquality.{eq_iff}
use fy_s.Common.{
  ℕ, ◌≡◌, refl, sym, ◌∙◌, subst, Bool, true, not, ◌&&◌, &&_split, some, List, [], ◌∷◌, any, ◌≢◌,
  Bool-cases, Option-cases, inl, inr,
}
use mathlib.Core.Option.{none}
use mathlib.Core.List.{Memᴰ}
use fy_s.Priority.State.{done}
use fy_s.Priority.Ensures.{Ensures, Ensures-done}
use fy_s.FightingPit.{
  FightingPit, is_player_participant, AuthenticatedPlayer, continue_battle, is_player_participant,
}
use fy_s.Worker.{
  WorkerService, does_fighting_pit_exist, Table, lookup, continue_each, fighting_pits_round,
  get_authenticated_player_fighting_pit,
}
use fy_s.Worker.Values.{EachValue, lookup-EachValue, Each, Each-implies, Each-Mem}
use fy_s.Arena.{
  FightingPitEncounter, ArenaServerService, ArenaServerValidateAuth, Platform,
  create_awaiting_player, has_to_be_generated, find_awaited, on_in_game, on_dispatcher_message,
  process_message_from_player,
}
use fy_s.Arena.Reach.{Reaches, booted, notified, heard, fought}
use fy_s.Arena.NewPits.{Waits}
use fy_s.Arena.Waits.{AllWait, in_game-AllWait}
use fy_s.Arena.Trusted.{AsTold, Announced, IsTrusted, authentication-IsTrusted}

done_eq {ℓ} : {A : Type ℓ} {a b : A} → done a ≡ done b → a ≡ b
done_eq e = cc

module _ {ℓ} {S : Type ℓ} {C R : Type 0} (pf : Platform S C R) where
  dispatcher-IsTrusted :
      (log : List FightingPitEncounter) (identity : String) (binary : FightingPitEncounter)
      (s : ArenaServerService S C R)
      → IsTrusted log s
      → IsTrusted (binary ∷ log) (on_dispatcher_message pf identity binary s).0
  unfolding on_dispatcher_message
  dispatcher-IsTrusted log identity binary s h =
      let older : IsTrusted (binary ∷ log) s = record {
        awaited =
            Each-implies (AsTold log) (AsTold (binary ∷ log)) s.awaiting_arena
              (λ e (m, inside, key, same). (m, Memᴰ.tail inside, key, same)) h.awaited;
        pits =
            Each-implies _ _ s.worker_service.arena_instances
              (λ e w. (
                w.0,
                Each-implies (Announced log) (Announced (binary ∷ log)) e.1.authenticated_players
                    (λ p (m, inside, name, token, id). (m, Memᴰ.tail inside, name, token, id)) w.1,
              ))
              h.pits;
      } in
      elim (Bool-cases (
        not (has_to_be_generated (create_awaiting_player binary))
        && not (does_fighting_pit_exist s.worker_service binary.fighting_pit_id))) [
          | inl t ↦ rw (t, on_dispatcher_message) older
          | inr f ↦ elim (Option-cases (find_awaited s.awaiting_arena binary.token_auth)) [
            | inr (other, e) ↦ rw (f, on_dispatcher_message, e) older
            | inl e ↦
                rw (f, on_dispatcher_message, e)
                  (record {
                    awaited = ((binary, Memᴰ.head refl, refl, refl), older.awaited);
                    pits = older.pits;
                  })
          ]
        ]

  fought-same :
      (P : AuthenticatedPlayer → Type 0) (calculation now : ℕ) (table : Table (FightingPit S))
      → EachValue (Waits P) table
      → continue_each pf.engine pf.sort pf.fuel calculation now table ≡ done table
  unfolding continue_each continue_battle
  fought-same P calculation now [] h = refl
  fought-same P calculation now ((id, fp) ∷ rest) h =
      rw (h.0.0, fought-same P calculation now rest h.1) refl

  pub round_same :
      (P : AuthenticatedPlayer → Type 0) (calculation now : ℕ) (ws : WorkerService S)
      → AllWait pf P ws
      → fighting_pits_round pf.engine pf.sort pf.fuel calculation now ws ≡ done ws
  unfolding fighting_pits_round
  round_same P calculation now ws h = rw (fought-same P calculation now ws.arena_instances h) refl

  message-IsTrusted :
      (log : List FightingPitEncounter) (frames : List String) (s : ArenaServerService S C R)
      → IsTrusted log s
      → Ensures (process_message_from_player pf frames s) (λ r. IsTrusted log r.0)
  unfolding process_message_from_player
  message-IsTrusted log [] s h = h
  message-IsTrusted log (a ∷ []) s h = h
  message-IsTrusted log (a ∷ b ∷ []) s h = h
  message-IsTrusted log (a ∷ b ∷ c ∷ []) s h = elim (Bool-cases (str_eq b "auth")) [
    | inl t ↦ rw t (authentication-IsTrusted pf log a _ s h)
    | inr f ↦
        let (pits, same) =
          in_game-AllWait pf (Announced log) (pf.get_arena_server_validate_auth b) s h.pits in
        rw f (record { awaited = subst (Each (AsTold log)) (sym same) h.awaited; pits = pits })
  ]
  message-IsTrusted log (a ∷ b ∷ c ∷ d ∷ rest) s h = h

  pub Reaches-IsTrusted :
      {log : List FightingPitEncounter} {s : ArenaServerService S C R}
      → Reaches pf log s
      → IsTrusted log s
  unfolding fighting_pits_round
  Reaches-IsTrusted (booted c r) = record { awaited = tt; pits = tt }
  Reaches-IsTrusted (notified reached identity binary) =
      dispatcher-IsTrusted _ identity binary _ (Reaches-IsTrusted reached)
  Reaches-IsTrusted (heard reached frames sent e) =
      Ensures-done _ (message-IsTrusted _ frames _ (Reaches-IsTrusted reached)) e
  Reaches-IsTrusted (fought reached calculation now ws e) =
      let h = Reaches-IsTrusted reached in
      let same : ws ≡ _ = done_eq (sym e ∙ round_same (Announced _) calculation now _ h.pits) in
      record { awaited = h.awaited; pits = subst (AllWait pf (Announced _)) (sym same) h.pits }

any-Mem {ℓ} :
    {A : Type ℓ} (test : A → Bool) (xs : List A)
    → any test xs ≡ true
    → (x : A) × Memᴰ x xs × (test x ≡ true)
any-Mem test [] e = absurd (cc)
any-Mem test (x ∷ xs) e = elim (Bool-cases (test x)) [
  | inl t ↦ (x, Memᴰ.head refl, t)
  | inr f ↦ let (y, inside, t) = any-Mem test xs (rw f at e) in (y, Memᴰ.tail inside, t)
]

-- Whoever is authenticated in a pit of a server, after any messages, the dispatcher has announced under
-- that name and token, as the creator of a pit.
pub authenticated_was_announced {ℓ} :
    {S : Type ℓ} {C R : Type 0} (pf : Platform S C R) (log : List FightingPitEncounter)
    (s : ArenaServerService S C R) (id : ℕ) (fp : FightingPit S) (player : AuthenticatedPlayer)
    → Reaches pf log s
    → lookup s.worker_service.arena_instances id ≡ some fp
    → Memᴰ player fp.authenticated_players
    → (m : FightingPitEncounter) × Memᴰ m log
      × (m.user_name ≡ player.name)
      × (m.token_auth ≡ player.token)
      × (m.fighting_pit_id ≡ 0)
authenticated_was_announced pf log s id fp player reached found inside =
    let waits =
      lookup-EachValue (Waits (Announced log)) s.worker_service.arena_instances id fp
        (Reaches-IsTrusted pf reached).pits found in
    Each-Mem (Announced log) fp.authenticated_players player waits.1 inside

-- A player whom the dispatcher has announced with a token only to join pits is authenticated in none of
-- them by that token, at any time; so the server drops each message that the player sends in a game.
pub joiner_is_stranger {ℓ} :
    {S : Type ℓ} {C R : Type 0} (pf : Platform S C R) (log : List FightingPitEncounter)
    (s : ArenaServerService S C R) (auth : ArenaServerValidateAuth)
    → Reaches pf log s
    → ((m : FightingPitEncounter)
        → Memᴰ m log
        → m.user_name ≡ auth.user_name
        → m.token_auth ≡ auth.token_auth
        → m.fighting_pit_id ≢ 0)
    → ((id : ℕ)
        → get_authenticated_player_fighting_pit s.worker_service auth.user_name auth.token_auth id
          ≡ none)
      × (on_in_game pf auth s ≡ s)
unfolding get_authenticated_player_fighting_pit on_in_game is_player_participant
joiner_is_stranger pf log s auth reached joins =
    (stranger, rw (stranger auth.fighting_pit_id, on_in_game) refl)
  where
    stranger :
        (id : ℕ)
        → get_authenticated_player_fighting_pit s.worker_service auth.user_name auth.token_auth id
          ≡ none
    stranger id = elim (Option-cases (lookup s.worker_service.arena_instances id)) [
      | inl e ↦ rw (e, get_authenticated_player_fighting_pit) refl
      | inr (fp, e) ↦ elim (Bool-cases (is_player_participant fp auth.user_name auth.token_auth)) [
        | inr f ↦ rw (e, get_authenticated_player_fighting_pit, f) refl
        | inl t ↦
            let (player, inside, same) = any-Mem _ fp.authenticated_players t in
            let (named, known) = &&_split {x = str_eq player.name auth.user_name} same in
            let (m, in_log, name, token, creates) =
              authenticated_was_announced pf log s id fp player reached e inside in
            absurd (
              joins m in_log (name ∙ (eq_iff player.name auth.user_name).0 named)
                (token ∙ (eq_iff player.token auth.token_auth).0 known) creates)
      ]
    ]

-- After any messages, a round of the pits of a server changes nothing: no pit has begun to fight.
pub no_pit_fights {ℓ} :
    {S : Type ℓ} {C R : Type 0} (pf : Platform S C R) (log : List FightingPitEncounter)
    (s : ArenaServerService S C R) (calculation now : ℕ)
    → Reaches pf log s
    → fighting_pits_round pf.engine pf.sort pf.fuel calculation now s.worker_service
      ≡ done s.worker_service
no_pit_fights pf log s calculation now reached =
    round_same pf (Announced log) calculation now s.worker_service
      (Reaches-IsTrusted pf reached).pits
