-- ===== src/Worker/Tests.antt =====
-- A server of services/arena/src/network/WorkerService.cpp with one pit.
use Prim.Native.String.{String}
use fy_s.Common.{ℕ, ◌≡◌, ◌≢◌, ◌⊎◌, refl, false, some, [], ◌∷◌, arith}
use fy_s.FightingPit.{FightingPit, easy, medium, new_fighting_pit, creation_error}
use fy_s.Worker.{
  WorkerService, lookup, has, add_fighting_pit, add_player_identifier, retrieve_player_identifier,
}
use fy_s.Worker.Ids.{add_fighting_pit-has}
use fy_s.Worker.Identifiers.{retrieve-add_player_identifier}

abbrev first_pit : FightingPit ℕ
first_pit = new_fighting_pit "ada" easy 0 1

abbrev second_pit : FightingPit ℕ
second_pit = new_fighting_pit "bob" medium 0 7

abbrev server : ℕ → WorkerService ℕ
server last = record {
  current_arena_id = last;
  arena_id_on_identifier = [];
  arena_instances = (1, first_pit) ∷ [];
}

-- The id 1 is passed.
add_fighting_pit-has_example :
    (id : ℕ) × (ws' : WorkerService ℕ) × (add_fighting_pit 2 (server 0) (some second_pit)
      ≡ some (id, ws'))
    × (id ≢ creation_error)
    × (has (server 0).arena_instances id ≡ false)
    × (ws'.current_arena_id ≡ id)
    × (lookup ws'.arena_instances id ≡ some (record second_pit { arena_id = id }))
    × ((other : ℕ)
        → other ≢ id
        → lookup ws'.arena_instances other ≡ lookup (server 0).arena_instances other)
unfolding lookup
add_fighting_pit-has_example =
    add_fighting_pit-has 2 (server 0) second_pit 2 (omega arith) (omega arith) (omega arith)
      (omega arith) refl

retrieve-add_player_identifier_example :
    (retrieve_player_identifier (add_player_identifier (server 1) 1 "ada" "socket 9") 1 "ada"
      ≡ "socket 9")
    × ((id' : ℕ) (other : String)
        → (id' ≢ 1) ⊎ ("ada" ≢ other)
        → retrieve_player_identifier (add_player_identifier (server 1) 1 "ada" "socket 9") id' other
          ≡ retrieve_player_identifier (server 1) id' other)
retrieve-add_player_identifier_example =
    retrieve-add_player_identifier (server 1) 1 "ada" "socket 9"
