-- ===== src/Dispatcher/Keeps.antt =====
-- What one turn of the loop of dispatcher/common/include/core/Dispatcher.hh does with the messages
-- that come in.
use fy_s.Common.{
  ℕ, ◌+◌, ◌≡◌, refl, sym, subst, ap, ◌∙◌, Bool, true, false, not, ◌||◌, Option, some, List, [], ◌∷◌,
  ◌++◌, if◌then◌else◌, arith, count,
}
use mathlib.Core.Option.{none}
use fy_s.Dispatcher.{
  Multipart, DispatcherConnectionManager, has_input, poll_items, event_at, poll,
  send_message_to_dispatcher_socket, dispatcher_handler_base, dispatch_message_from_listener_socket,
  dispatch_message_from_subscriber_socket, dispatch_message_from_dispatcher_socket, run_turn,
}

-- The requests that are sent on, and those that wait to be.
abbrev pub requests_held : (Multipart → Bool) → DispatcherConnectionManager → ℕ
requests_held p m =
    count p m.dispatcher.sent + count p m.listener.incoming + count p m.sub_socket.incoming

-- The dispatching socket is connected, and sends whatever it is given.
pub record Serves (m : DispatcherConnectionManager) : Type 0 where
  pub connected : m.dispatcher.connected ≡ true
  pub agrees : (msg : Multipart) → m.dispatcher.agrees msg ≡ true

pub record Keeps (m m' : DispatcherConnectionManager) : Type 0 where
  pub serves : Serves m'
  pub held : (p : Multipart → Bool) → requests_held p m' ≡ requests_held p m
  pub replied : m'.listener.sent ≡ m.listener.sent
  pub replies : m'.dispatcher.incoming ≡ m.dispatcher.incoming

Keeps-refl : (m : DispatcherConnectionManager) → Serves m → Keeps m m
Keeps-refl m s = record { serves = s; held = λ p. refl; replied = refl; replies = refl }

Keeps-trans : (m m' m'' : DispatcherConnectionManager) → Keeps m m' → Keeps m' m'' → Keeps m m''
Keeps-trans m m' m'' k k' = record {
  serves = k'.serves;
  held = λ p. k'.held p ∙ k.held p;
  replied = k'.replied ∙ k.replied;
  replies = k'.replies ∙ k.replies;
}

pub count-snoc :
    (p : Multipart → Bool) (ms : List Multipart) (msg : Multipart)
    → count p (ms ++ msg ∷ []) ≡ count p (msg ∷ ms)
count-snoc p [] msg = refl
count-snoc p (m ∷ ms) msg = ground (arith, count-snoc p ms msg)

abbrev sent_on : Multipart → DispatcherConnectionManager → DispatcherConnectionManager
sent_on msg m = record m {
  dispatcher = record (m.dispatcher) { sent = m.dispatcher.sent ++ msg ∷ [] };
}

send-sent_on :
    (msg : Multipart) (m : DispatcherConnectionManager)
    → Serves m
    → (send_message_to_dispatcher_socket msg m).1 ≡ sent_on msg m
unfolding send_message_to_dispatcher_socket
send-sent_on msg m s = simp (s.connected, s.agrees msg) refl

listener-Keeps :
    (m : DispatcherConnectionManager)
    → Serves m
    → Keeps m (dispatch_message_from_listener_socket dispatcher_handler_base m)
unfolding dispatch_message_from_listener_socket dispatcher_handler_base
listener-Keeps m s = go m.listener.incoming refl
  where
    read_from : List Multipart → DispatcherConnectionManager
    read_from ms = elim ms [
      | [] ↦ m
      | msg ∷ rest ↦
          (send_message_to_dispatcher_socket msg
            (record m { listener = record (m.listener) { incoming = rest } })).1
    ]

    go : (ms : List Multipart) → m.listener.incoming ≡ ms → Keeps m (read_from ms)
    go [] e = Keeps-refl m s
    go (msg ∷ rest) e =
        let m' : DispatcherConnectionManager = record m {
          listener = record (m.listener) { incoming = rest };
        } in
        let s' : Serves m' = record { connected = s.connected; agrees = s.agrees } in
        subst (Keeps m) (sym (send-sent_on msg m' s')) (record {
          serves = record { connected = s.connected; agrees = s.agrees };
          held = λ p. ground (arith, count-snoc p m.dispatcher.sent msg, ap (count p) e);
          replied = refl;
          replies = refl;
        })

subscriber-Keeps :
    (m : DispatcherConnectionManager)
    → Serves m
    → Keeps m (dispatch_message_from_subscriber_socket dispatcher_handler_base m)
unfolding dispatch_message_from_subscriber_socket dispatcher_handler_base
subscriber-Keeps m s = go m.closed m.sub_socket.incoming refl
  where
    read_from : Bool → List Multipart → DispatcherConnectionManager
    read_from closed ms =
        if not closed
        then elim ms [
          | [] ↦ m
          | msg ∷ rest ↦
              (send_message_to_dispatcher_socket msg
                (record m { sub_socket = record (m.sub_socket) { incoming = rest } })).1
        ]
        else m

    go :
        (closed : Bool) (ms : List Multipart)
        → m.sub_socket.incoming ≡ ms
        → Keeps m (read_from closed ms)
    go true ms e = Keeps-refl m s
    go false [] e = Keeps-refl m s
    go false (msg ∷ rest) e =
        let m' : DispatcherConnectionManager = record m {
          sub_socket = record (m.sub_socket) { incoming = rest };
        } in
        let s' : Serves m' = record { connected = s.connected; agrees = s.agrees } in
        subst (Keeps m) (sym (send-sent_on msg m' s')) (record {
          serves = record { connected = s.connected; agrees = s.agrees };
          held = λ p. ground (arith, count-snoc p m.dispatcher.sent msg, ap (count p) e);
          replied = refl;
          replies = refl;
        })

-- The socket of the replies is not among those that are polled.
pub turn-Keeps :
    (m : DispatcherConnectionManager) → Serves m → Keeps m (run_turn dispatcher_handler_base m)
unfolding run_turn poll poll_items event_at
turn-Keeps m s =
    go m.closed (has_input m.listener) (has_input m.sub_socket) (has_input m.dispatcher)
  where
    first : DispatcherConnectionManager
    first = dispatch_message_from_listener_socket dispatcher_handler_base m

    polled : Bool → Bool → Bool → Bool → Option (Bool × Bool × Bool)
    polled closed a b c =
        let items : List Bool = poll_items (if closed then 1 else 2) (a ∷ b ∷ c ∷ []) in
        let on_subscriber : Bool = if closed then false else event_at 1 items in
        let any_event : Bool = event_at 0 items || event_at 1 items || event_at 2 items in
        if any_event then some (event_at 0 items, on_subscriber, event_at 2 items) else none

    turned : Option (Bool × Bool × Bool) → DispatcherConnectionManager
    turned events = elim events [
      | none ↦ m
      | some (on_listener, on_subscriber, on_dispatcher) ↦
          let after : DispatcherConnectionManager = if on_listener then first else m in
          let second : DispatcherConnectionManager =
            if on_subscriber
            then dispatch_message_from_subscriber_socket dispatcher_handler_base after
            else after in
          if on_dispatcher
          then dispatch_message_from_dispatcher_socket dispatcher_handler_base second
          else second
    ]

    go : (closed a b c : Bool) → Keeps m (turned (polled closed a b c))
    go true true b c = listener-Keeps m s
    go true false b c = Keeps-refl m s
    go false true true c =
        let k = listener-Keeps m s in Keeps-trans m first _ k (subscriber-Keeps first k.serves)
    go false true false c = listener-Keeps m s
    go false false true c = subscriber-Keeps m s
    go false false false c = Keeps-refl m s
