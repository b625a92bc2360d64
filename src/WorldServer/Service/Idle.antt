-- ===== src/WorldServer/Service/Idle.antt =====
-- What a world server does with the messages of its players:
-- services/worldserver/src/WorldServerService.cpp.
use Prim.Native.String.{String}
use fy_s.Common.{ℕ, ◌≡◌, refl, Option, some, List, [], ◌∷◌, ◌++◌, drop}
use mathlib.Core.Option.{none}
use fy_s.WorldServer.Double.{Double}
use fy_s.WorldServer.CollisionMap.{CollisionMap}
use fy_s.WorldServer.Engine.{Action}
use fy_s.WorldServer.Engine.Still.{new_engine, message-new, pending-new}
use fy_s.WorldServer.Service.{
  Multipart, ConnectionHandler, poll_sub_message, process_message, handle_sub_message,
  WorldServerService, run_turn,
}

-- A message arrives, or the loop makes a turn.
pub data Event : Type 0 where
  arrived : Multipart → Event
  turned : Event

abbrev pub receive : {D : Type 0} → Multipart → WorldServerService D → WorldServerService D
receive msg s = record s {
  connection_handler = record (s.connection_handler) {
    incoming = s.connection_handler.incoming ++ msg ∷ [];
  };
}

-- What is left of the waiting messages: each turn takes the first one, if there is one.
unfoldable pub still_waiting : List Event → List Multipart → List Multipart
still_waiting [] waiting = waiting
still_waiting (arrived msg ∷ events) waiting = still_waiting events (waiting ++ msg ∷ [])
still_waiting (turned ∷ events) waiting = still_waiting events (drop 1 waiting)

module _ {D : Type 0} (d : Double D) where
  abbrev pub new_service : CollisionMap D → ℕ → ConnectionHandler → WorldServerService D
  new_service map n c = record { world_server = new_engine d map n; connection_handler = c }

module _ {D : Type 0} (d : Double D) (get_ws_action : String → Action D) where
  unfoldable pub run_events :
      List Event → WorldServerService D → Option (WorldServerService D × List String)
  unfolding run_turn
  run_events [] s = some (s, [])
  run_events (arrived msg ∷ events) s = run_events events (receive msg s)
  run_events (turned ∷ events) s = elim (run_turn d get_ws_action s) [
    | none ↦ none
    | some (s', notified) ↦ elim (run_events events s') [
      | none ↦ none
      | some (s'', later) ↦ some (s'', notified ++ later)
    ]
  ]

  handled-new :
      (msg : Multipart) (map : CollisionMap D) (n : ℕ)
      → handle_sub_message d get_ws_action msg (new_engine d map n) ≡ some (new_engine d map n)
  unfolding handle_sub_message process_message
  handled-new [] map n = refl
  handled-new (idt ∷ []) map n = refl
  handled-new (idt ∷ token ∷ []) map n = refl
  handled-new (idt ∷ token ∷ content ∷ []) map n =
      message-new d idt token (get_ws_action content) map n
  handled-new (idt ∷ token ∷ content ∷ magic ∷ []) map n = refl
  handled-new (idt ∷ token ∷ content ∷ magic ∷ more ∷ rest) map n = refl

  turn-new :
      (map : CollisionMap D) (n : ℕ) (c : ConnectionHandler)
      → run_turn d get_ws_action (new_service d map n c)
        ≡ some (new_service d map n (record c { incoming = drop 1 c.incoming }), [])
  unfolding run_turn poll_sub_message
  turn-new map n c = go c.incoming refl
    where
      go :
          (ms : List Multipart)
          → c.incoming ≡ ms
          → run_turn d get_ws_action (new_service d map n (record c { incoming = ms }))
            ≡ some (new_service d map n (record c { incoming = drop 1 ms }), [])
      go [] e = rw (run_turn, pending-new d map n) refl
      go (msg ∷ rest) e = rw (handled-new msg map n, run_turn, pending-new d map n) refl

  -- Whatever messages come in, and however often the loop turns between them, a world server that was
  -- built anew never throws, keeps its engine as it was built, notifies nobody and answers nothing;
  -- each turn reads the oldest message that waits.
  pub world_server_idles :
      (events : List Event) (map : CollisionMap D) (n : ℕ) (c : ConnectionHandler)
      → run_events events (new_service d map n c)
        ≡ some (new_service d map n (record c { incoming = still_waiting events c.incoming }), [])
  unfolding run_events still_waiting
  world_server_idles [] map n c = refl
  world_server_idles (arrived msg ∷ events) map n c =
      world_server_idles events map n (record c { incoming = c.incoming ++ msg ∷ [] })
  world_server_idles (turned ∷ events) map n c =
      rw
        (
          turn-new map n c,
          run_events,
          world_server_idles events map n (record c { incoming = drop 1 c.incoming }),
        )
        refl
