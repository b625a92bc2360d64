-- ===== src/Arena/Reach.antt =====
-- The states that the server of services/arena/src/ArenaServerService.cpp can come to, and what holds
-- in all of them.
use Prim.Native.String.{String}
use fy_s.Common.{ℕ, ◌≡◌, List, [], ◌∷◌}
use fy_s.Priority.State.{done}
use fy_s.Worker.{WorkerService, fighting_pits_round}
use fy_s.Arena.{
  FightingPitEncounter, ArenaServerService, Platform, Sent, on_dispatcher_message,
  process_message_from_player,
}

module _ {ℓ} {S : Type ℓ} {C R : Type 0} (pf : Platform S C R) where
  abbrev pub initial : C → R → ArenaServerService S C R
  initial c r = record {
    cache_state = c;
    random = r;
    worker_service = record {
      current_arena_id = 0;
      arena_id_on_identifier = [];
      arena_instances = [];
    };
    awaiting_arena = [];
  }

  -- The server after these messages of the dispatcher, the last one first, and any messages of players
  -- and rounds of the pits between them.
  pub data Reaches : List FightingPitEncounter → ArenaServerService S C R → Type ℓ where
    booted : (c : C) (r : R) → Reaches [] (initial c r)
    notified :
        {log : List FightingPitEncounter} {s : ArenaServerService S C R}
        → Reaches log s
        → (identity : String) (binary : FightingPitEncounter)
        → Reaches (binary ∷ log) (on_dispatcher_message pf identity binary s).0
    heard :
        {log : List FightingPitEncounter} {s s' : ArenaServerService S C R}
        → Reaches log s
        → (frames : List String) (sent : List Sent)
        → process_message_from_player pf frames s ≡ done (s', sent)
        → Reaches log s'
    fought :
        {log : List FightingPitEncounter} {s : ArenaServerService S C R}
        → Reaches log s
        → (calculation now : ℕ) (ws : WorkerService S)
        → fighting_pits_round pf.engine pf.sort pf.fuel calculation now s.worker_service ≡ done ws
        → Reaches log (record s { worker_service = ws })
