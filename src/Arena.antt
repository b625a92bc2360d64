-- ===== src/Arena.antt =====
-- The arena server: services/arena/include/ArenaServerService.hh and
-- services/arena/src/ArenaServerService.cpp, with the frames of
-- services/arena/include/network/WorkerService.hh and services/arena/include/ConnectionHandler.hh. The
-- sockets are the frames that come in and the messages that go out; FlatBuffers is a parameter.
mod Messages
pub mod Reach
pub mod NewPits
pub mod Waits
pub mod Trusted
pub mod Safety
pub mod Steps
pub mod Enter
mod Tests
unfoldable pub use Messages.*
use Prim.Native.String.{String}
use text.Mathlib.Text.{◌==◌ as str_eq}
use fy_s.Common.{
  ℕ, Bool, true, false, not, ◌&&◌, ◌||◌, Option, some, List, [], ◌∷◌, ◌++◌, map, filter,
  if◌then◌else◌, ◌==◌,
}
use mathlib.Core.Option.{none}
use fy_s.CommonTypes.{PriorityElem}
use fy_s.Priority.State.{Outcome, done, undefined, out_of_fuel, ◌>>=◌}
use fy_s.Encounters.{EncounterContext, at_zone}
use fy_s.Team.Allies.{get_party_team_of_player}
use fy_s.SideBattle.{SideBattle}
use fy_s.Scripting.{ScriptEngine, ScriptCache}
use fy_s.Database.{retrieve_party_team}
use fy_s.FightingPit.{
  FightingPit, Level, easy, medium, hard, creation_error, forward_message_to_team_member,
}
use fy_s.Announcer.{
  FightingPitAnnouncer, Generator, new_announcer, set_difficulty, set_encounter_id, enforce_ambush,
  set_creator_user_name, set_creator_user_token, set_creator_team_party, build_fighting_pit,
}
use fy_s.Worker.{
  WorkerService, PlayerIdentifier, lookup, assign, add_fighting_pit, player_join_fighting_pit,
  get_authenticated_player_fighting_pit, does_fighting_pit_exist, add_player_identifier,
}

-- The loop of `broadcastMsg`. The first `send` takes all parts out of the message, and the `at` of a
-- second turn throws.
abbrev pub broadcast_msg : List PlayerIdentifier → Outcome (List Sent)
broadcast_msg [] = done []
broadcast_msg (p ∷ []) = done (new_team p.identifier ∷ [])
broadcast_msg (p ∷ q ∷ ps) = undefined

module _ {ℓ} {S : Type ℓ} {C R : Type 0} (pf : Platform S C R) where
  abbrev pub server_auth : AwaitingPlayerArena → ArenaServerAuth
  server_auth apa = record {
    user_name = apa.name_player;
    token_auth = apa.token;
    hostname = pf.hostname;
    ip = pf.connection_string;
    port = pf.port;
    code_ws = elim apa.gen [ none ↦ "" | some gen ↦ gen.server_code ];
  }

  -- The handler of the dispatcher's messages.
  unfoldable pub on_dispatcher_message :
      String
      → FightingPitEncounter
      → ArenaServerService S C R
      → ArenaServerService S C R × List Sent
  unfolding create_awaiting_player find_awaited
  on_dispatcher_message identity_ws binary s =
      let apa = create_awaiting_player binary in
      if not (has_to_be_generated apa)
        && not (does_fighting_pit_exist s.worker_service apa.fighting_pit_id)
      then (s, [])
      else elim (find_awaited s.awaiting_arena binary.token_auth) [
        | some other ↦ (s, [])
        | none ↦ (
          record s { awaiting_arena = (binary.token_auth, apa) ∷ s.awaiting_arena },
          reply identity_ws (server_auth apa) ∷ [],
        )
      ]

  unfoldable pub build_awaited :
      AwaitingPlayerArena
      → AwaitingArena
      → ArenaServerService S C R
      → Outcome (Option (FightingPit S) × C × R)
  unfolding announcer_for build_fighting_pit
  build_awaited awaited gen s =
      build_fighting_pit pf.cache pf.engine pf.generator pf.unset_speed pf.sort_sides pf.sort
        pf.fuel pf.encounter_context gen.server_code pf.fresh_scripts pf.unset_arena_id
        (announcer_for awaited gen) s.cache_state s.random

  -- What was built comes to the pits.
  unfoldable pub store_built :
      Option (FightingPit S) × C × R
      → ArenaServerService S C R
      → Outcome (ℕ × ArenaServerService S C R)
  unfolding add_fighting_pit
  store_built (fp, c, r) s = elim (add_fighting_pit pf.id_fuel s.worker_service fp) [
    | none ↦ out_of_fuel
    | some (id, ws) ↦ done (id, record s { cache_state = c; random = r; worker_service = ws })
  ]

  -- The id, and the server after it. An exception meets the `noexcept`, and a `gen` that is not there
  -- is read: both are `undefined`.
  unfoldable pub create_new_fighting_pit :
      AwaitingPlayerArena → ArenaServerService S C R → Outcome (ℕ × ArenaServerService S C R)
  unfolding build_awaited store_built
  create_new_fighting_pit awaited s = elim awaited.gen [
    | none ↦ undefined
    | some gen ↦ build_awaited awaited gen s >>= λ built. store_built built s
  ]

  -- `broadCastNewArrivingTeam`, with `broadcastMsg`; `undefined` is an exception that meets the
  -- `noexcept`: there is no such pit, or no team of that name in it. Nor does the message have a part
  -- for a second identifier.
  unfoldable pub broadcast_new_arriving_team : WorkerService S → ℕ → String → Outcome (List Sent)
  unfolding lookup
  broadcast_new_arriving_team ws id user_name = elim (lookup ws.arena_instances id) [
    | none ↦ undefined
    | some fp ↦ elim (get_party_team_of_player fp.world.party_teams user_name) [
      | none ↦ undefined
      | some pt ↦ elim (lookup ws.arena_id_on_identifier id) [
        | none ↦ done []
        | some is ↦ broadcast_msg is
      ]
    ]
  ]

  -- The end of the authentication.
  unfoldable pub log_in :
      String
      → String
      → ℕ
      → ArenaServerService S C R
      → Outcome (ArenaServerService S C R × List Sent)
  unfolding broadcast_new_arriving_team
  log_in identity user_name id s =
      let ws = add_player_identifier s.worker_service id user_name identity in
      broadcast_new_arriving_team ws id user_name >>= λ sent.
      done (record s { worker_service = ws }, sent)

  -- The branch of a pit that is generated, once it is.
  unfoldable pub enter_created :
      String
      → ArenaServerValidateAuth
      → ℕ × ArenaServerService S C R
      → Outcome (ArenaServerService S C R × List Sent)
  unfolding log_in erase_awaited
  enter_created identity binary (id, s) =
      let s' = record s { awaiting_arena = erase_awaited binary.token_auth s.awaiting_arena } in
      let logged = log_in identity binary.user_name id s' in
      if id == creation_error then done (s', []) else logged

  -- The branch of a pit that is joined.
  unfoldable pub enter_joined :
      String
      → ArenaServerValidateAuth
      → AwaitingPlayerArena
      → ArenaServerService S C R
      → Outcome (ArenaServerService S C R × List Sent)
  unfolding log_in erase_awaited player_join_fighting_pit
  enter_joined identity binary awaited s =
      let (c, ws) =
        player_join_fighting_pit pf.engine pf.cache pf.sort_sides awaited.fighting_pit_id
          (retrieve_party_team binary.user_name) s.cache_state s.worker_service in
      let joined = log_in identity binary.user_name awaited.fighting_pit_id (record s {
        cache_state = c;
        worker_service = ws;
        awaiting_arena = erase_awaited binary.token_auth s.awaiting_arena;
      }) in
      if does_fighting_pit_exist s.worker_service binary.fighting_pit_id
      then joined
      else done (s, [])

  -- The authentication handler. The iterator is followed before it is known to be none, which C++
  -- leaves undefined at the end.
  unfoldable pub on_authentication :
      String
      → ArenaServerValidateAuth
      → ArenaServerService S C R
      → Outcome (ArenaServerService S C R × List Sent)
  unfolding is_player_awaited create_new_fighting_pit enter_created enter_joined
  on_authentication identity binary s =
      elim (is_player_awaited s.awaiting_arena binary.user_name binary.token_auth
        binary.fighting_pit_id) [
          | none ↦ undefined
          | some awaited ↦ elim (has_to_be_generated awaited) [
            | true ↦ create_new_fighting_pit awaited s >>= λ created.
                enter_created identity binary created
            | false ↦ enter_joined identity binary awaited s
          ]
        ]

  -- The handler of the messages in a game; the pit is changed where it is.
  unfoldable pub on_in_game :
      ArenaServerValidateAuth → ArenaServerService S C R → ArenaServerService S C R
  unfolding get_authenticated_player_fighting_pit forward_message_to_team_member assign
  on_in_game auth_frame s =
      elim (get_authenticated_player_fighting_pit s.worker_service auth_frame.user_name
        auth_frame.token_auth auth_frame.fighting_pit_id) [
          | none ↦ s
          | some fp ↦ record s {
            worker_service = record s.worker_service {
              arena_instances =
                  assign s.worker_service.arena_instances auth_frame.fighting_pit_id
                    (forward_message_to_team_member fp auth_frame.user_name 0);
            };
          }
        ]

  -- `pollAndProcessMessageFromDispatcher` on the frames of a message.
  unfoldable pub process_message_from_dispatcher :
      List String → ArenaServerService S C R → ArenaServerService S C R × List Sent
  unfolding on_dispatcher_message
  process_message_from_dispatcher (identity ∷ message ∷ []) s =
      on_dispatcher_message identity (pf.get_fighting_pit_encounter message) s
  process_message_from_dispatcher _ s = (s, [])

  -- `pollAndProcessMessageFromPlayer` on the frames of a message.
  unfoldable pub process_message_from_player :
      List String → ArenaServerService S C R → Outcome (ArenaServerService S C R × List Sent)
  unfolding on_authentication on_in_game
  process_message_from_player (identity ∷ intermediate ∷ content ∷ []) s =
      if str_eq intermediate "auth"
      then on_authentication identity (pf.get_arena_server_validate_auth content) s
      else done (on_in_game (pf.get_arena_server_validate_auth intermediate) s, [])
  process_message_from_player _ s = done (s, [])
