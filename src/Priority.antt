-- ===== src/Priority.antt =====
-- The order of turns on a side of the pit:
-- services/arena/include/fightingPit/PriorityOrderList.hh and
-- services/arena/src/fightingPit/PriorityOrderList.cpp. `State` has the fields and what can happen,
-- `Sort` the custom sort, `Turns` the calculation of a turn, `Operations` the public methods.
pub mod State
pub mod Sort
pub mod Turns
pub mod Operations
pub mod Order
pub mod Ensures
pub mod Unsnoc
pub mod CustomSort
pub mod FirstRound
pub mod Absent
pub mod Removal
pub mod Tests
