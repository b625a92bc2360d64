-- ===== src/WorldServer/Service.antt =====
-- The service of a world server: services/worldserver/src/WorldServerService.cpp, with the sockets of
-- services/worldserver/include/ConnectionHandler.hh and services/worldserver/src/ConnectionHandler.cpp.
-- A socket is what has come in on it and what was sent; the buffers' library reads a message's action.
pub mod Idle
mod Tests
use Prim.Native.String.{String}
use fy_s.Common.{
  Bool, true, false, ◌||◌, Option, some, List, [], ◌∷◌, ◌++◌, length, ltb, if◌then◌else◌,
}
use mathlib.Core.Option.{none}
use fy_s.WorldServer.Double.{Double}
use fy_s.WorldServer.Engine.{
  WorldServerEngine, Action, process_player_input_message, execute_pending_actions,
}

abbrev pub Multipart : Type 0
Multipart = List String

pub record ConnectionHandler : Type 0 where
  pub incoming : List Multipart
  pub is_connected : Bool
  pub sent : List Multipart

unfoldable pub send_message_to_dispatcher : Multipart → ConnectionHandler → ConnectionHandler
send_message_to_dispatcher msg c =
    if c.is_connected then record c { sent = c.sent ++ msg ∷ [] } else c

-- `pollAndProcessSubMessage` up to its call of the handler: the message that is read, if one is there.
unfoldable pub poll_sub_message : ConnectionHandler → Option Multipart × ConnectionHandler
poll_sub_message c = elim c.incoming [
  | [] ↦ (none, c)
  | msg ∷ rest ↦ (some msg, record c { incoming = rest })
]

-- The parts of a message that are read: its identity, token, content and magic.
pub record Parts : Type 0 where
  pub idt : String
  pub token : String
  pub content : String
  pub internal_magic : Option String

-- `none` for a message that is ill formatted.
unfoldable pub parts_of : Multipart → Option Parts
parts_of (idt ∷ token ∷ content ∷ []) =
    some (record { idt = idt; token = token; content = content; internal_magic = none })
parts_of (idt ∷ token ∷ content ∷ magic ∷ []) =
    some (record { idt = idt; token = token; content = content; internal_magic = some magic })
parts_of _ = none

pub record WorldServerService (D : Type 0) : Type 0 where
  pub world_server : WorldServerEngine D
  pub connection_handler : ConnectionHandler

module _ {D : Type 0} (d : Double D) (get_ws_action : String → Action D) where
  -- `none` is an exception of the engine.
  unfoldable pub process_message : Parts → WorldServerEngine D → Option (WorldServerEngine D)
  unfolding process_player_input_message
  process_message parts e = elim parts.internal_magic [
    | some magic ↦ some e
    | none ↦ process_player_input_message d parts.idt parts.token (get_ws_action parts.content) e
  ]

  unfoldable pub handle_sub_message : Multipart → WorldServerEngine D → Option (WorldServerEngine D)
  unfolding process_message parts_of
  handle_sub_message msg e = elim (parts_of msg) [
    | none ↦ some e
    | some parts ↦ process_message parts e
  ]

  -- One turn of the loop of `runServerLoop`, with the clients that are to be notified.
  unfoldable pub run_turn : WorldServerService D → Option (WorldServerService D × List String)
  unfolding poll_sub_message handle_sub_message execute_pending_actions
  run_turn s =
      let (polled, c) = poll_sub_message s.connection_handler in
      let handled : Option (WorldServerEngine D) = elim polled [
        | none ↦ some s.world_server
        | some msg ↦ handle_sub_message msg s.world_server
      ] in
      elim handled [
        | none ↦ none
        | some e ↦ elim (execute_pending_actions d e) [
          | none ↦ none
          | some (e', notified) ↦
              some (record { world_server = e'; connection_handler = c }, notified)
        ]
      ]
