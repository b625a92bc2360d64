-- ===== src/Dispatcher/Tests.antt =====
-- A dispatcher at concrete messages.
use fy_s.Common.{◌≡◌, refl, true, false, List, [], ◌∷◌}
use fy_s.Dispatcher.{dispatcher_handler_base, Socket, DispatcherConnectionManager}
use fy_s.Dispatcher.Conserved.{
  Event, turned, requested, notified, replied, run, Dispatched, run-Dispatched,
}

abbrev socket : Socket
socket = record { connected = true; agrees = λ msg. true; incoming = []; sent = [] }

abbrev cluster_aware : DispatcherConnectionManager
cluster_aware = record {
  listener = socket;
  dispatcher = socket;
  sub_socket = socket;
  pub_socket = socket;
  closed = false;
}

abbrev events : List Event
events =
    requested ("client" ∷ "attack" ∷ [])
    ∷ notified ("cluster" ∷ [])
    ∷ turned
    ∷ replied ("client" ∷ "done" ∷ [])
    ∷ turned
    ∷ []

sent_on_of_events :
    (run events cluster_aware).dispatcher.sent ≡ ("client" ∷ "attack" ∷ []) ∷ ("cluster" ∷ []) ∷ []
unfolding run dispatcher_handler_base
sent_on_of_events = refl

run-Dispatched_example : Dispatched events cluster_aware (run events cluster_aware)
run-Dispatched_example =
    run-Dispatched events cluster_aware (record { connected = refl; agrees = λ msg. refl })
