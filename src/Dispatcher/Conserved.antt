-- ===== src/Dispatcher/Conserved.antt =====
-- What the loop of dispatcher/common/include/core/Dispatcher.hh does with the messages that come in.
use fy_s.Common.{◌+◌, ◌≡◌, refl, sym, ap, ◌∙◌, Bool, List, [], ◌∷◌, ◌++◌, arith, count}
use fy_s.Dispatcher.{
  Multipart, Socket, DispatcherConnectionManager, dispatcher_handler_base, run_turn,
}
use fy_s.Dispatcher.Keeps.{Serves, requests_held, count-snoc, turn-Keeps}

-- A turn of the loop, or a message that comes in on a socket.
pub data Event : Type 0 where
  turned : Event
  requested : Multipart → Event
  notified : Multipart → Event
  replied : Multipart → Event

abbrev received : Multipart → Socket → Socket
received msg s = record s { incoming = s.incoming ++ msg ∷ [] }

unfoldable pub happens : Event → DispatcherConnectionManager → DispatcherConnectionManager
unfolding run_turn
happens turned m = run_turn dispatcher_handler_base m
happens (requested msg) m = record m { listener = received msg m.listener }
happens (notified msg) m = record m { sub_socket = received msg m.sub_socket }
happens (replied msg) m = record m { dispatcher = received msg m.dispatcher }

unfoldable pub run : List Event → DispatcherConnectionManager → DispatcherConnectionManager
unfolding happens
run [] m = m
run (e ∷ es) m = run es (happens e m)

unfoldable pub requests : List Event → List Multipart
requests [] = []
requests (turned ∷ es) = requests es
requests (requested msg ∷ es) = msg ∷ requests es
requests (notified msg ∷ es) = msg ∷ requests es
requests (replied msg ∷ es) = requests es

unfoldable pub replies : List Event → List Multipart
replies [] = []
replies (turned ∷ es) = replies es
replies (requested msg ∷ es) = replies es
replies (notified msg ∷ es) = replies es
replies (replied msg ∷ es) = msg ∷ replies es

pub record Dispatched (events : List Event) (m m' : DispatcherConnectionManager) : Type 0 where
  held : (p : Multipart → Bool) → requests_held p m' ≡ requests_held p m + count p (requests events)
  unanswered : m'.listener.sent ≡ m.listener.sent
  unread : m'.dispatcher.incoming ≡ m.dispatcher.incoming ++ replies events

append_nil : (ms : List Multipart) → ms ++ [] ≡ ms
append_nil [] = refl
append_nil (m ∷ ms) = ap (λ rest. m ∷ rest) (append_nil ms)

append_snoc :
    (ms : List Multipart) (msg : Multipart) (more : List Multipart)
    → (ms ++ msg ∷ []) ++ more ≡ ms ++ msg ∷ more
append_snoc [] msg more = refl
append_snoc (m ∷ ms) msg more = ap (λ rest. m ∷ rest) (append_snoc ms msg more)

count_cons :
    (p : Multipart → Bool) (msg : Multipart) (ms : List Multipart)
    → count p (msg ∷ ms) ≡ count p (msg ∷ []) + count p ms
count_cons p msg ms = ground arith

-- Where the dispatching socket is connected and sends whatever it is given, every request and every
-- notification that comes in is either sent on there or still waits, as often as it came, whatever
-- the order of messages and turns; but no answer is sent to a client, and every reply of a server
-- stays unread.
pub run-Dispatched :
    (events : List Event) (m : DispatcherConnectionManager)
    → Serves m
    → Dispatched events m (run events m)
unfolding run happens requests replies
run-Dispatched [] m s = record {
  held = λ p. omega arith;
  unanswered = refl;
  unread = sym (append_nil m.dispatcher.incoming);
}
run-Dispatched (turned ∷ es) m s =
    let k = turn-Keeps m s in
    let d = run-Dispatched es (run_turn dispatcher_handler_base m) k.serves in
    record {
      held = λ p. d.held p ∙ ap (λ n. n + count p (requests es)) (k.held p);
      unanswered = d.unanswered ∙ k.replied;
      unread = d.unread ∙ ap (λ ms. ms ++ replies es) k.replies;
    }
run-Dispatched (requested msg ∷ es) m s =
    let m' : DispatcherConnectionManager = record m { listener = received msg m.listener } in
    let d = run-Dispatched es m' (record { connected = s.connected; agrees = s.agrees }) in
    record {
      held = λ p. omega (
        arith,
        d.held p,
        count-snoc p m.listener.incoming msg,
        count_cons p msg m.listener.incoming,
        count_cons p msg (requests es),
      );
      unanswered = d.unanswered;
      unread = d.unread;
    }
run-Dispatched (notified msg ∷ es) m s =
    let m' : DispatcherConnectionManager = record m { sub_socket = received msg m.sub_socket } in
    let d = run-Dispatched es m' (record { connected = s.connected; agrees = s.agrees }) in
    record {
      held = λ p. omega (
        arith,
        d.held p,
        count-snoc p m.sub_socket.incoming msg,
        count_cons p msg m.sub_socket.incoming,
        count_cons p msg (requests es),
      );
      unanswered = d.unanswered;
      unread = d.unread;
    }
run-Dispatched (replied msg ∷ es) m s =
    let m' : DispatcherConnectionManager = record m { dispatcher = received msg m.dispatcher } in
    let d = run-Dispatched es m' (record { connected = s.connected; agrees = s.agrees }) in
    record {
      held = d.held;
      unanswered = d.unanswered;
      unread = d.unread ∙ append_snoc m.dispatcher.incoming msg (replies es);
    }
