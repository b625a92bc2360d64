-- ===== src/Arena/Steps.antt =====
-- What the handlers of services/arena/src/ArenaServerService.cpp do on the way of a player into a pit.
use Prim.Native.String.{String}
use text.Mathlib.Text.{◌==◌ as str_eq}
use text.Mathlib.TextEquality.{eq_iff}
use fy_s.Common.{
  ℕ, ◌≡◌, ◌≢◌, ◌<◌, refl, true, false, not, ◌&&◌, some, List, [], ◌∷◌, arith, Bool-cases,
  Option-cases, inl, inr, length, ◌==◌, uint_mod,
}
use mathlib.Core.Option.{none}
use fy_s.Priority.State.{undefined, done, ◌>>=◌}
use fy_s.Encounters.{at_zone}
use fy_s.Team.Party.{PartyTeam}
use fy_s.Team.Allies.{no_teams, number_members, add_party_team, get_party_team_of_player}
use fy_s.Database.{retrieve_party_team}
use fy_s.FightingPit.{FightingPit, creation_error}
use fy_s.Announcer.{level_index, set_encounter_id}
use fy_s.Worker.Ids.{lookup-assign_self}
use fy_s.Worker.{
  set_identifier, WorkerService, does_fighting_pit_exist, lookup, add_fighting_pit,
  add_player_identifier,
}
use fy_s.Arena.{
  FightingPitEncounter, FbLevel, fb_easy, fb_medium, fb_hard, other_level, AwaitingArena,
  AwaitingPlayerArena, ArenaServerService, ArenaServerValidateAuth, Platform, new_team,
  create_awaiting_player, translate_level_from_flatbuffer, has_to_be_generated, find_awaited,
  erase_awaited, is_player_awaited, announcer_for, build_awaited, store_built,
  create_new_fighting_pit, broadcast_new_arriving_team, log_in, enter_created, on_authentication,
  on_dispatcher_message,
}

-- The team that every player has for now.
pub four_members : (name : String) → length (retrieve_party_team name).members < uint_mod
unfolding retrieve_party_team
four_members name = omega arith

four_named : (name : String) → (retrieve_party_team name).user_name ≡ name
unfolding retrieve_party_team
four_named name = refl

pub same_text : (s : String) → str_eq s s ≡ true
same_text s = (eq_iff s s).1 refl

pub level_named : (l : FbLevel) → level_index (translate_level_from_flatbuffer l) < 3
level_named fb_easy = omega arith
level_named fb_medium = omega arith
level_named fb_hard = omega arith
level_named other_level = omega arith

-- What a message that asks for a pit says of it.
abbrev pub gen_of : FightingPitEncounter → AwaitingArena
gen_of m = record {
  server_code = m.world_server_id;
  is_ambush = m.is_ambush;
  encounter_id = m.id_encounter;
  level_fighting_pit = translate_level_from_flatbuffer m.level_encounter;
}

pub awaited-gen :
    (m : FightingPitEncounter)
    → m.fighting_pit_id ≡ 0
    → (create_awaiting_player m).gen ≡ some (gen_of m)
unfolding create_awaiting_player
awaited-gen m e = rw e refl

pub awaited_generates :
    (m : FightingPitEncounter)
    → m.fighting_pit_id ≡ 0
    → has_to_be_generated (create_awaiting_player m) ≡ true
unfolding create_awaiting_player
awaited_generates m e = rw e refl

pub announcer-loaded_script :
    (awaited : AwaitingPlayerArena) (gen : AwaitingArena)
    → (announcer_for awaited gen).loaded_script ≡ []
unfolding announcer_for set_encounter_id
announcer-loaded_script awaited gen = elim (Bool-cases (gen.encounter_id == 0)) [
  | inl t ↦ rw t refl
  | inr f ↦ rw f refl
]

pub announcer-difficulty :
    (awaited : AwaitingPlayerArena) (gen : AwaitingArena)
    → (announcer_for awaited gen).difficulty ≡ gen.level_fighting_pit
unfolding announcer_for set_encounter_id
announcer-difficulty awaited gen = elim (Bool-cases (gen.encounter_id == 0)) [
  | inl t ↦ rw t refl
  | inr f ↦ rw f refl
]

pub find-erase_awaited :
    (token : String) (awaiting : List (String × AwaitingPlayerArena))
    → find_awaited (erase_awaited token awaiting) token ≡ none
unfolding find_awaited erase_awaited at_zone
find-erase_awaited token [] = refl
find-erase_awaited token ((key, a) ∷ rest) = elim (Bool-cases (str_eq key token)) [
  | inl t ↦ rw t (find-erase_awaited token rest)
  | inr f ↦ rw (f, at_zone, f) (find-erase_awaited token rest)
]

pub found_awaited :
    (m : FightingPitEncounter) (rest : List (String × AwaitingPlayerArena))
    → m.fighting_pit_id ≡ 0
    → is_player_awaited ((m.token_auth, create_awaiting_player m) ∷ rest) m.user_name m.token_auth 0
      ≡ some (create_awaiting_player m)
unfolding is_player_awaited find_awaited at_zone create_awaiting_player
found_awaited m rest e =
    rw (same_text m.token_auth, is_player_awaited, same_text m.user_name, e) refl

pub team_of_player :
    (pt : PartyTeam)
    → get_party_team_of_player (add_party_team no_teams pt) pt.user_name
      ≡ some (record pt { members = (number_members 0 pt.members).1 })
unfolding get_party_team_of_player add_party_team
team_of_player pt = rw (same_text pt.user_name) refl

module _ {ℓ} {S : Type ℓ} {C R : Type 0} (pf : Platform S C R) where
  pub dispatcher_awaits :
      (identity : String) (m : FightingPitEncounter) (s : ArenaServerService S C R)
      → m.fighting_pit_id ≡ 0
      → find_awaited s.awaiting_arena m.token_auth ≡ none
      → (on_dispatcher_message pf identity m s).0
        ≡ record s { awaiting_arena = (m.token_auth, create_awaiting_player m) ∷ s.awaiting_arena }
  unfolding on_dispatcher_message
  dispatcher_awaits identity m s e new = rw (awaited_generates m e, on_dispatcher_message, new) refl

  pub dispatcher_keeps :
      (identity : String) (m : FightingPitEncounter) (s : ArenaServerService S C R)
      → (on_dispatcher_message pf identity m s).0.worker_service ≡ s.worker_service
  unfolding on_dispatcher_message
  dispatcher_keeps identity m s =
      elim (Bool-cases (
        not (has_to_be_generated (create_awaiting_player m))
        && not (does_fighting_pit_exist s.worker_service m.fighting_pit_id))) [
          | inl t ↦ rw (t, on_dispatcher_message) refl
          | inr f ↦ elim (Option-cases (find_awaited s.awaiting_arena m.token_auth)) [
            | inr (other, e) ↦ rw (f, on_dispatcher_message, e) refl
            | inl e ↦ rw (f, on_dispatcher_message, e) refl
          ]
        ]

  first_identifier :
      (ws : WorkerService S) (id : ℕ) (name identity : String)
      → lookup ws.arena_id_on_identifier id ≡ none
      → lookup (add_player_identifier ws id name identity).arena_id_on_identifier id
        ≡ some (record { user_name = name; identifier = identity } ∷ [])
  unfolding add_player_identifier set_identifier
  first_identifier ws id name identity first =
      rw first (lookup-assign_self ws.arena_id_on_identifier id _)

  -- The first player who logs in to a pit is the only one to be told.
  pub log_in-done :
      (identity name : String) (id : ℕ) (s : ArenaServerService S C R) (fp : FightingPit S)
      (pt : PartyTeam)
      → lookup s.worker_service.arena_instances id ≡ some fp
      → get_party_team_of_player fp.world.party_teams name ≡ some pt
      → lookup s.worker_service.arena_id_on_identifier id ≡ none
      → log_in pf identity name id s
        ≡ done (
          record s { worker_service = add_player_identifier s.worker_service id name identity },
          new_team identity ∷ [],
        )
  unfolding log_in add_player_identifier broadcast_new_arriving_team set_identifier
  log_in-done identity name id s fp pt found team first =
      let alone = first_identifier s.worker_service id name identity first in
      rw (found, broadcast_new_arriving_team, team, broadcast_new_arriving_team, alone) refl

  pub create_new-done :
      (awaited : AwaitingPlayerArena) (gen : AwaitingArena) (s : ArenaServerService S C R)
      (fp : FightingPit S) (c : C) (r : R) (id : ℕ) (ws : WorkerService S)
      → awaited.gen ≡ some gen
      → build_awaited pf awaited gen s ≡ done (some fp, c, r)
      → add_fighting_pit pf.id_fuel s.worker_service (some fp) ≡ some (id, ws)
      → create_new_fighting_pit pf awaited s
        ≡ done (id, record s { cache_state = c; random = r; worker_service = ws })
  unfolding create_new_fighting_pit store_built
  create_new-done awaited gen s fp c r id ws g built added =
      rw (g, create_new_fighting_pit, built, ◌>>=◌, store_built, added) refl

  pub authentication-created :
      (identity : String) (auth : ArenaServerValidateAuth) (s : ArenaServerService S C R)
      (awaited : AwaitingPlayerArena) (created : ℕ × ArenaServerService S C R)
      → is_player_awaited s.awaiting_arena auth.user_name auth.token_auth auth.fighting_pit_id
        ≡ some awaited
      → has_to_be_generated awaited ≡ true
      → create_new_fighting_pit pf awaited s ≡ done created
      → on_authentication pf identity auth s ≡ enter_created pf identity auth created
  unfolding on_authentication
  authentication-created identity auth s awaited created e gen made =
      rw (e, on_authentication, gen, on_authentication, made) refl

  pub entered-done :
      (identity : String) (auth : ArenaServerValidateAuth) (id : ℕ) (s : ArenaServerService S C R)
      → id ≢ creation_error
      → enter_created pf identity auth (id, s)
        ≡ log_in pf identity auth.user_name id
            (record s { awaiting_arena = erase_awaited auth.token_auth s.awaiting_arena })
  unfolding enter_created
  entered-done identity auth id s ne =
      let other : (id == creation_error) ≡ false = ground (arith, ne) in rw other refl

  pub used_up :
      (identity : String) (auth : ArenaServerValidateAuth) (s : ArenaServerService S C R)
      → find_awaited s.awaiting_arena auth.token_auth ≡ none
      → on_authentication pf identity auth s ≡ undefined
  unfolding on_authentication is_player_awaited
  used_up identity auth s e = rw (e, on_authentication) refl
