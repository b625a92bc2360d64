-- ===== src/WorldServer/Engine.antt =====
-- The engine of a world server: services/worldserver/include/engine/WorldServerEngine.hh and
-- services/worldserver/src/engine/WorldServerEngine.cpp. The trigger of a position and the notification
-- of a client are empty in the source; the clients that would be notified are kept.
pub mod Still
mod Tests
use Prim.Native.String.{String}
use fy_s.Common.{
  ℕ, zero, suc, ◌-◌, Bool, true, false, Option, some, List, [], ◌∷◌, ◌++◌, length, set, get_elem?,
  if◌then◌else◌, ltb, uint_mod,
}
use mathlib.Core.Option.{none}
use fy_s.WorldServer.Double.{Double}
use fy_s.WorldServer.CollisionMap.{CollisionMap, can_move_to}
use fy_s.WorldServer.PlayersData.{
  PlayersData, PlayerInfo, PlayerStatus, fighting, moving, standing, limit_notifications_move,
  set_player_move_action, set_status, get_index_and_update_player_connection,
  get_player_idts_arround_pos,
}

pub record WorldServerEngine (D : Type 0) : Type 0 where
  pub map : CollisionMap D
  pub pd : PlayersData D

-- The tables of the messages of the players.
pub data Action (D : Type 0) : Type 0 where
  move : D → Action D
  interruption : Action D
  other_action : Action D

module _ {D : Type 0} (d : Double D) where
  -- `none` is an exception of `at`.
  unfoldable pub process_player_input_message :
      String → String → Action D → WorldServerEngine D → Option (WorldServerEngine D)
  unfolding get_index_and_update_player_connection set_player_move_action set_status
  process_player_input_message idt token action e =
      elim (get_index_and_update_player_connection token idt e.pd) [
        | none ↦ none
        | some (index, pd) ↦
            let acted : Option (PlayersData D) = elim action [
              | move direction ↦ set_player_move_action index direction pd
              | interruption ↦ set_status index standing pd
              | other_action ↦ some pd
            ] in
            elim (ltb index (uint_mod - 1)) [
              | false ↦ some (record e { pd = pd })
              | true ↦ elim acted [ none ↦ none | some pd' ↦ some (record e { pd = pd' }) ]
            ]
      ]

  -- A velocity of 1. The clients that are notified stand beside the players.
  unfoldable pub move_player_action :
      CollisionMap D → ℕ → PlayerInfo D → PlayersData D → Option (PlayersData D × List String)
  unfolding can_move_to get_player_idts_arround_pos
  move_player_action map index pi pd =
      let future_x = d.mul pi.x (d.mul (d.of_uint 1) (d.cos pi.angle)) in
      let future_y = d.mul pi.y (d.mul (d.of_uint 1) (d.sin pi.angle)) in
      elim (can_move_to d map future_x future_y 0) [
        | none ↦ none
        | some false ↦ some (pd, [])
        | some true ↦
            let moved = record pi { x = future_x; y = future_y } in
            let pd' = record pd { positions = set pd.positions index moved } in
            elim (get_player_idts_arround_pos d moved (d.of_uint 30) limit_notifications_move pd') [
              | none ↦ none
              | some clients ↦ some (pd', clients)
            ]
      ]

  -- `executeOnPlayers` with the action of `executePendingActions`, for `n` players from index `i` on.
  unfoldable pub execute_on_players :
      CollisionMap D → ℕ → ℕ → PlayersData D × List String → Option (PlayersData D × List String)
  unfolding move_player_action
  execute_on_players map zero i state = some state
  execute_on_players map (suc n) i (pd, notified) = elim (get_elem? pd.status i) [
    | none ↦ none
    | some status ↦ elim (get_elem? pd.positions i) [
      | none ↦ none
      | some pi ↦ elim (get_elem? pd.identities i) [
        | none ↦ none
        | some idt ↦ elim status [
          | moving ↦ elim (move_player_action map i pi pd) [
            | none ↦ none
            | some (pd', clients) ↦ execute_on_players map n (suc i) (pd', notified ++ clients)
          ]
          | fighting ↦ execute_on_players map n (suc i) (pd, notified)
          | standing ↦ execute_on_players map n (suc i) (pd, notified)
        ]
      ]
    ]
  ]

  unfoldable pub execute_pending_actions :
      WorldServerEngine D → Option (WorldServerEngine D × List String)
  unfolding execute_on_players
  execute_pending_actions e = elim (execute_on_players e.map (length e.pd.status) 0 (e.pd, [])) [
    | none ↦ none
    | some (pd, notified) ↦ some (record e { pd = pd }, notified)
  ]
