-- ===== src/SideBattle.antt =====
-- The battle on one side of the pit: services/arena/include/fightingPit/SideBattle.hh and
-- services/arena/src/fightingPit/SideBattle.cpp. A time point and a duration are numbers of
-- milliseconds. The references to the contenders and to the teams are never read, and are left out.
pub mod Filling
pub mod Clock
mod Tests
use fy_s.Common.{ℕ, ◌+◌, Bool, true, false, List, [], ◌∷◌, if◌then◌else◌, ltb}
use fy_s.Common.Int.{ℤ}
use fy_s.CommonTypes.{PriorityElem}
use fy_s.HexagonSide.Sides.{Orientation}
use fy_s.Priority.State.{PriorityOrderList, Outcome, done, ◌>>=◌}
use fy_s.Priority.Operations.{empty_order, is_order_empty, get_next}
use fy_s.Priority.Operations

pub record SideBattle : Type 0 where
  pub priority_order_list : PriorityOrderList
  pub side : Orientation
  pub started : Bool
  pub end_current_turn : ℕ

-- The constructor; `_endCurrentTurn` is the epoch until the first call.
abbrev pub new_side_battle : Orientation → SideBattle
new_side_battle side = record {
  priority_order_list = empty_order;
  side = side;
  started = false;
  end_current_turn = 0;
}

abbrev pub is_side_empty : SideBattle → Bool
is_side_empty b = is_order_empty b.priority_order_list

-- The block under `if (!_started)`.
abbrev pub start : ℕ → ℕ → SideBattle → SideBattle
start now interlude b =
    if b.started then b else record b { end_current_turn = now + interlude; started = true }

module _ (sort : List PriorityElem → List PriorityElem) where
  unfoldable pub add_participant_in_list : ℕ → SideBattle → ℕ → ℤ → Bool → Outcome SideBattle
  add_participant_in_list fuel b id speed is_contender =
      Operations.add_participant_in_list sort fuel b.priority_order_list id speed is_contender
      >>= λ order. done (record b { priority_order_list = order })

  -- `getNext` of the member, with its fuel.
  next_turn : ℕ → ℕ → SideBattle → Outcome (PriorityElem × SideBattle)
  next_turn fuel calculation b = get_next sort fuel calculation b.priority_order_list >>= λ next.
      done (next.0, record b { priority_order_list = next.1 })

  unfoldable pub get_current_participant_turn :
      ℕ → ℕ → ℕ → ℕ → SideBattle → Outcome (PriorityElem × SideBattle)
  unfolding next_turn
  get_current_participant_turn fuel calculation now interlude b =
      let b' = start now interlude b in
      if ltb now b'.end_current_turn
      then done (b'.priority_order_list.current_prio, b')
      else next_turn fuel calculation (record b' { end_current_turn = now + interlude })

  -- `endParticipantTurn`, at the time `clock` of the system.
  unfoldable end_participant_turn : ℕ → ℕ → ℕ → ℕ → SideBattle → Outcome SideBattle
  unfolding next_turn
  end_participant_turn fuel calculation clock interlude b =
      next_turn fuel calculation (record b { end_current_turn = clock + interlude }) >>= λ next.
      done next.1
