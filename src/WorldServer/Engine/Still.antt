-- ===== src/WorldServer/Engine/Still.antt =====
-- What the players of services/worldserver/src/engine/WorldServerEngine.cpp can do: the map from tokens
-- to players, services/worldserver/include/engine/PlayersData.hh, has no entry, and nobody adds one.
use Prim.Native.String.{String}
use fy_s.Common.{
  ℕ, zero, suc, ◌+◌, ◌≤◌, ◌<◌, ◌≡◌, refl, Option, some, List, [], ◌∷◌, ◌++◌, arith,
  length-replicate, get_elem?-replicate,
}
use mathlib.Core.Option.{none}
use fy_s.WorldServer.Double.{Double}
use fy_s.WorldServer.CollisionMap.{CollisionMap}
use fy_s.WorldServer.PlayersData.{
  PlayerInfo, fighting, new_players_data, get_index_and_update_player_connection,
}
use fy_s.WorldServer.Engine.{
  WorldServerEngine, Action, process_player_input_message, execute_on_players,
  execute_pending_actions,
}

-- What the server does with the engine: a player's message, or the pending actions.
pub data Input (D : Type 0) : Type 0 where
  message : String → String → Action D → Input D
  pending : Input D

module _ {D : Type 0} (d : Double D) where
  abbrev pub new_engine : CollisionMap D → ℕ → WorldServerEngine D
  new_engine map n = record { map = map; pd = new_players_data d n }

  -- The engine after the inputs, and the clients that were notified.
  abbrev pub run : List (Input D) → WorldServerEngine D → Option (WorldServerEngine D × List String)
  run [] e = some (e, [])
  run (message idt token action ∷ inputs) e =
      elim (process_player_input_message d idt token action e) [
        | none ↦ none
        | some e' ↦ run inputs e'
      ]
  run (pending ∷ inputs) e = elim (execute_pending_actions d e) [
    | none ↦ none
    | some (e', clients) ↦ elim (run inputs e') [
      | none ↦ none
      | some (e'', later) ↦ some (e'', clients ++ later)
    ]
  ]

  pub message-new :
      (idt token : String) (action : Action D) (map : CollisionMap D) (n : ℕ)
      → process_player_input_message d idt token action (new_engine map n) ≡ some (new_engine map n)
  unfolding process_player_input_message get_index_and_update_player_connection new_players_data
  message-new idt token action map n = refl

  pending_from :
      (map : CollisionMap D) (all n i : ℕ)
      → i + n ≤ all
      → execute_on_players d map n i (new_players_data d all, [])
        ≡ some (new_players_data d all, [])
  unfolding execute_on_players new_players_data
  pending_from map all zero i le = refl
  pending_from map all (suc n) i le =
      let lt : i < all = omega (arith, le) in
      rw
        (
          get_elem?-replicate all i fighting lt,
          execute_on_players,
          get_elem?-replicate all i standing_still lt,
          execute_on_players,
          get_elem?-replicate {A = String} all i "" lt,
          execute_on_players,
        )
        (pending_from map all n (suc i) (omega (arith, le)))
    where
      standing_still : PlayerInfo D
      standing_still = record { x = d.of_uint 0; y = d.of_uint 0; angle = d.of_uint 0 }

  pub pending-new :
      (map : CollisionMap D) (n : ℕ)
      → execute_pending_actions d (new_engine map n) ≡ some (new_engine map n, [])
  unfolding execute_pending_actions new_players_data
  pending-new map n =
      rw
        (length-replicate n fighting, execute_pending_actions, pending_from map n n 0 (omega arith))
        refl

  -- Whatever messages the players send, and however often the pending actions are executed, the engine
  -- stays as it was built, and no client is notified.
  pub nobody_moves :
      (inputs : List (Input D)) (map : CollisionMap D) (n : ℕ)
      → run inputs (new_engine map n) ≡ some (new_engine map n, [])
  nobody_moves [] map n = refl
  nobody_moves (message idt token action ∷ inputs) map n =
      rw (message-new idt token action map n, run) (nobody_moves inputs map n)
  nobody_moves (pending ∷ inputs) map n =
      rw (pending-new map n, run, nobody_moves inputs map n) refl
