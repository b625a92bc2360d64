-- ===== src/WorldServer.antt =====
-- The world server: services/worldserver.
pub mod Double
pub mod Whole
pub mod CollisionMap
pub mod PlayersData
pub mod Engine
pub mod Service
pub mod Start
pub mod Started
