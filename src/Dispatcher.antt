-- ===== src/Dispatcher.antt =====
-- A dispatcher between sockets: dispatcher/common/include/core/DispatcherConnectionManager.hh,
-- dispatcher/common/src/core/DispatcherConnectionManager.cpp,
-- dispatcher/common/include/core/Dispatcher.hh and dispatcher/common/src/core/Dispatcher.cpp. A
-- socket is what has come in on it and what was sent.
pub mod Keeps
pub mod Conserved
mod Tests
use Prim.Native.String.{String}
use fy_s.Common.{
  ℕ, zero, suc, Bool, true, false, not, ◌&&◌, ◌||◌, Option, some, List, [], ◌∷◌, ◌++◌,
  if◌then◌else◌,
}
use mathlib.Core.Option.{none}

abbrev pub Multipart : Type 0
Multipart = List String

-- A socket of the messaging library: whether it is connected, and the messages that it agrees to send.
pub record Socket : Type 0 where
  pub connected : Bool
  pub agrees : Multipart → Bool
  pub incoming : List Multipart
  pub sent : List Multipart

-- The two cluster sockets and `closed` are the `ClusterConnection`. Whether the load is balanced
-- decides on the kind of the dispatching socket only.
pub record DispatcherConnectionManager : Type 0 where
  pub listener : Socket
  pub dispatcher : Socket
  pub sub_socket : Socket
  pub pub_socket : Socket
  pub closed : Bool

unfoldable pub has_input : Socket → Bool
has_input s = elim s.incoming [ [] ↦ false | m ∷ ms ↦ true ]

-- The library's poll of the first items; the others keep their empty events.
unfoldable pub poll_items : ℕ → List Bool → List Bool
poll_items n [] = []
poll_items zero (w ∷ ws) = false ∷ poll_items zero ws
poll_items (suc n) (w ∷ ws) = w ∷ poll_items n ws

unfoldable pub event_at : ℕ → List Bool → Bool
event_at n [] = false
event_at zero (w ∷ ws) = w
event_at (suc n) (w ∷ ws) = event_at n ws

-- `poll`, with `none` while it waits for a first event.
unfoldable pub poll : DispatcherConnectionManager → Option (Bool × Bool × Bool)
unfolding has_input poll_items event_at
poll m =
    let items : List Bool =
      poll_items (if m.closed then 1 else 2)
        (has_input m.listener ∷ has_input m.sub_socket ∷ has_input m.dispatcher ∷ []) in
    let on_subscriber : Bool = if m.closed then false else event_at 1 items in
    let any_event : Bool = event_at 0 items || event_at 1 items || event_at 2 items in
    if any_event then some (event_at 0 items, on_subscriber, event_at 2 items) else none

abbrev pub send : Multipart → Socket → Bool × Socket
send msg s = if s.agrees msg then (true, record s { sent = s.sent ++ msg ∷ [] }) else (false, s)

unfoldable pub reply_to_listener_socket :
    Multipart → DispatcherConnectionManager → Bool × DispatcherConnectionManager
reply_to_listener_socket msg m =
    let (ok, s) = send msg m.listener in
    if not m.listener.connected then (false, m) else (ok, record m { listener = s })

unfoldable pub send_message_to_dispatcher_socket :
    Multipart → DispatcherConnectionManager → Bool × DispatcherConnectionManager
send_message_to_dispatcher_socket msg m =
    let (ok, s) = send msg m.dispatcher in
    if not m.dispatcher.connected then (false, m) else (ok, record m { dispatcher = s })

unfoldable pub send_message_to_cluster_pub_socket :
    Multipart → DispatcherConnectionManager → Bool × DispatcherConnectionManager
send_message_to_cluster_pub_socket msg m =
    let (ok, s) = send msg m.pub_socket in
    if m.closed || not m.pub_socket.connected then (false, m) else (ok, record m { pub_socket = s })

-- A `DispatcherHandler`.
pub record Handler : Type 0 where
  pub process_input_message : Multipart → DispatcherConnectionManager → DispatcherConnectionManager
  pub process_cluster_message :
      Multipart → DispatcherConnectionManager → DispatcherConnectionManager
  pub forward_message_to_frontend :
      Multipart → DispatcherConnectionManager → DispatcherConnectionManager

unfoldable pub dispatcher_handler_base : Handler
unfolding send_message_to_dispatcher_socket
dispatcher_handler_base = record {
  process_input_message = λ msg m. (send_message_to_dispatcher_socket msg m).1;
  process_cluster_message = λ msg m. (send_message_to_dispatcher_socket msg m).1;
  forward_message_to_frontend = λ msg m. (send_message_to_dispatcher_socket msg m).1;
}

unfoldable pub dispatch_message_from_listener_socket :
    Handler → DispatcherConnectionManager → DispatcherConnectionManager
dispatch_message_from_listener_socket h m = elim m.listener.incoming [
  | [] ↦ m
  | msg ∷ rest ↦
      h.process_input_message msg (record m { listener = record (m.listener) { incoming = rest } })
]

unfoldable pub dispatch_message_from_subscriber_socket :
    Handler → DispatcherConnectionManager → DispatcherConnectionManager
dispatch_message_from_subscriber_socket h m =
    let read : DispatcherConnectionManager = elim m.sub_socket.incoming [
      | [] ↦ m
      | msg ∷ rest ↦
          h.process_cluster_message msg
            (record m { sub_socket = record (m.sub_socket) { incoming = rest } })
    ] in
    if not m.closed then read else m

unfoldable pub dispatch_message_from_dispatcher_socket :
    Handler → DispatcherConnectionManager → DispatcherConnectionManager
dispatch_message_from_dispatcher_socket h m = elim m.dispatcher.incoming [
  | [] ↦ m
  | msg ∷ rest ↦
      h.forward_message_to_frontend msg
        (record m { dispatcher = record (m.dispatcher) { incoming = rest } })
]

-- One turn of the loop of `runDispatching`; it is left as it is while `poll` waits.
unfoldable pub run_turn : Handler → DispatcherConnectionManager → DispatcherConnectionManager
unfolding poll dispatch_message_from_listener_socket dispatch_message_from_subscriber_socket
    dispatch_message_from_dispatcher_socket
run_turn h m = elim (poll m) [
  | none ↦ m
  | some (on_listener, on_subscriber, on_dispatcher) ↦
      let first = if on_listener then dispatch_message_from_listener_socket h m else m in
      let second =
        if on_subscriber then dispatch_message_from_subscriber_socket h first else first in
      if on_dispatcher then dispatch_message_from_dispatcher_socket h second else second
]
