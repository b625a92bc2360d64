-- ===== src/Team.antt =====
-- The characters of the players: services/arena/include/fightingPit/team/TeamMember.hh, PartyTeam.hh
-- and AllyPartyTeams.hh, and their sources in services/arena/src/fightingPit/team/. `Ids` proves how
-- members are numbered and found, `Select` how they are chosen.
pub mod Member
pub mod Party
pub mod Allies
pub mod Ids
pub mod Select
pub mod Tests
