-- ===== src/HexagonSide.antt =====
-- The sides of the three hexagons of a fighting pit and the moves between them:
-- services/arena/include/fightingPit/HexagonSide.hh and
-- services/arena/src/fightingPit/HexagonSide.cpp.
-- `Sides` has the sides, `Moveable` the table of moves, `Moves` the class; the rest are proofs.
pub mod Sides
pub mod Moveable
pub mod Moves
pub mod Print
pub mod Placed
pub mod Graph
mod Tests
