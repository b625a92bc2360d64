-- ===== src/WorldServer/Service/Tests.antt =====
-- A world server with the messages of two players, one of them in too few parts.
use fy_s.Common.{ℕ, ◌≡◌, refl, true, some, [], ◌∷◌, List}
use mathlib.Core.Option.{none}
use fy_s.WorldServer.Whole.{whole}
use fy_s.WorldServer.CollisionMap.{CollisionMap}
use fy_s.WorldServer.Engine.{move}
use fy_s.WorldServer.Service.{ConnectionHandler, parts_of}
use fy_s.WorldServer.Service.Idle.{
  Event, arrived, turned, still_waiting, run_events, new_service, world_server_idles,
}

abbrev events : List Event
events =
    arrived ("ann" ∷ "token" ∷ "north" ∷ [])
    ∷ arrived ("ben" ∷ [])
    ∷ turned
    ∷ turned
    ∷ arrived ("ann" ∷ "token" ∷ "north" ∷ "testing player" ∷ [])
    ∷ []

abbrev empty_map : CollisionMap ℕ
empty_map = record {
  boundary_x = (0, 9);
  boundary_y = (0, 9);
  server_proximity = [];
  map_elems = [];
}

abbrev connection : ConnectionHandler
connection = record { incoming = []; is_connected = true; sent = [] }

world_server_idles_example :
    run_events whole (λ content. move 1) events (new_service whole empty_map 7 connection)
    ≡ some (
      new_service whole empty_map 7
          (record connection { incoming = still_waiting events connection.incoming }),
      [],
    )
world_server_idles_example =
    world_server_idles whole (λ content. move 1) events empty_map 7 connection

one_left : still_waiting events [] ≡ ("ann" ∷ "token" ∷ "north" ∷ "testing player" ∷ []) ∷ []
unfolding still_waiting
one_left = refl

five_parts : parts_of ("a" ∷ "b" ∷ "c" ∷ "d" ∷ "e" ∷ []) ≡ none
unfolding parts_of
five_parts = refl
