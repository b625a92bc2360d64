-- ===== src/Lib.antt =====
-- A model of the Free Your Soul servers: of services/arena the turn-based battle between the players'
-- teams and the monsters, the building of a battle and the server that lets players in, with the
-- containers of services/common that these stand on, and of services/worldserver the engine.
--
-- A fighting pit has 18 sides, six on each of three hexagons. Contenders (monsters) and the members of
-- the players' teams stand on sides and move between them; on each side a priority order list says
-- whose turn it is. Contenders and members are chosen as targets through a selection algorithm with a
-- comparator that a script supplies, and a member's pending actions wait in a bounded queue. The arena
-- server hears from the dispatcher which player is to come with which token; the player's message of
-- authentication then builds a pit by the encounter of a zone, or joins one, and a loop polls the pits.
--
-- Files and what they model (paths from the repository's root):
--   CommonTypes         services/arena/include/fightingPit/data/CommonTypes.hh
--   HexagonSide/        services/arena/include/fightingPit/HexagonSide.hh and its .cpp: `Sides` the enum and
--                       its codes, `Moveable` the template tables, `Moves` the class,
--                       `Print` its texts; `Placed`, `Graph` proofs.
--   Key/                services/common/include/Key.hh: tokens; `RoundTrip` proofs
--   Layout              services/arena/src/fightingPit/FightingPitLayout.cpp: moves and initial positions
--   SizedQueue          services/common/include/SizedQueue.hh, against the queue in SizedQueue/Fifo
--   Algorithm           services/common/include/algorithm/algorithm.hh
--   Contenders          services/arena/src/fightingPit/contender/PitContenders.cpp
--   Team/               services/arena/src/fightingPit/team/: `Member`, `Party`, `Allies`
--   Priority/           services/arena/src/fightingPit/PriorityOrderList.cpp: `State`, `Sort`, `Turns`,
--                       `Operations`; `Order`, `CustomSort`, `FirstRound`, `Absent`, `Removal` proofs.
--   SideBattle/         services/arena/src/fightingPit/SideBattle.cpp: the clock of the turns of a side
--   Actions/            `executeAction` of TeamMember.cpp, `executeAllyAction` of AllyPartyTeams.cpp and
--                       `executeContenderAction` of PitContenders.cpp, over a `ScriptEngine`
--   FightingPit/        services/arena/src/fightingPit/FightingPit.cpp: players, sides, `continueBattle`
--   Worker/             services/arena/src/network/WorkerService.cpp: the pits of a server
--   BoundaryMap/        services/common/include/BoundaryMap.hh, and makeContenderRngBoundaryMap of
--                       services/arena/src/fightingPit/FightingPitAnnouncer.cpp
--   Announcer/          services/arena/src/fightingPit/FightingPitAnnouncer.cpp and its header: the
--                       pits, `Builder` its settings; `Built`, `Loads` and `Pit` proofs.
--   Scripting/          services/arena/src/ChaiRegister.cpp and
--                       services/arena/src/fightingPit/contender/ContenderScripting.cpp: what is
--                       evaluated; `Texts` the texts of the scripts, `Utility` what they can ask
--   Cache/              scripting_cache/cml: `Cache` keys, files and the lookup; `Runs` calls one after
--                       another; `Present` proofs.
--   Dispatcher/         dispatcher/common: the sockets, their manager, and the loop; `Keeps` and
--                       `Conserved` proofs.
--   Database            services/arena/src/network/DBConnector.cpp: the teams that are written there
--   Arena/              services/arena/src/ArenaServerService.cpp and its header: the handlers; `Messages`
--                       what it is told and whom it awaits; `Reach` the states they can come to,
--                       `NewPits`, `Waits`, `Trusted`, `Safety`, `Steps` and `Enter` proofs.
--   Encounters/         services/arena/src/ArenaServerContext.cpp: validateEncounterContext
--   WorldServer/        services/worldserver: `Double` the numbers, `CollisionMap`, `PlayersData`,
--                       `Engine`, `Service` the loop and its messages, `Start` the start; `Marks`,
--                       `Spans`, `Blocked`, `Around`, `Still`, `Idle`, `Started` proofs.
--   Context/            services/common/src/ServiceContextBase.cpp,
--                       dispatcher/common/src/context/StartupDispatcherCtx.cpp,
--                       services/arena/src/ArenaServerContext.cpp and
--                       services/worldserver/src/WorldServerContext.cpp: `Service`, `Dispatcher`,
--                       `Arena` and `World` what a program starts with; `Json` the documents that it
--                       reads, `Values` some of them; `Topics`, `Configured`, `Zones`, `RoundTrip`,
--                       `WorldRoundTrip` proofs.
--   Common/             Boolean tests, lists and integers over the native numbers, 32-bit words.
-- A method that changes its object is a function that returns the new object, beside its result. The
-- names are the source's, in snake case.
--
-- Bounds: `uint` is a number with its wrap-around modulo 2^32 written out. `int` is an integer without
-- bounds, since C++ leaves its overflow undefined, but for the sum of the chances of a zone, to which a
-- `uint` is added modulo 2^32 and which is read back as an `int`. `calculatePriority` calls itself until a turn has
-- ended, so it takes fuel, and so does `getNext`; `first_round` needs none for the calculation. The search
-- for a free id takes fuel, of which more than the number of pits is enough. The 18 battles of a new pit
-- are filled with any fuel. The digits of a `uint` take ten units of fuel. A time is a number of
-- milliseconds, or of ticks, without bounds.
--
-- Parameters: `std::sort` is any function that sorts and keeps the elements (`SortLaws`); the random
-- generator is any function, with its bounds as a hypothesis where they matter; comparators are any
-- functions, strict orders where that matters; the script engine is a record of its calls, which change
-- the scripts' state, the contenders and the teams as they like. What C++ leaves undefined is an
-- outcome of its own (`undefined`), or `none` where it is an access out of range or an exception. The
-- server's `Platform` holds the configuration, the decoding of messages and these parameters; what C++
-- does not initialise is a number of the platform. Messages and rounds of the pits come one after the
-- other, in any order. A `double` is a number of any type with the operations that the code uses.
--
-- Not modelled: sockets, databases, serialisation, logging and the reading of files, which are input and
-- output; the script engine with the table of names it is given, and the parsers of properties, of JSON, of
-- the command line and of maps, which are third-party code: their results are parameters, and `Documents`
-- says what the JSON library documents of what it reads; the dumps of the contexts; the proxies
-- between dispatchers; the start and the loop of the arena server.
pub mod Common
pub mod Algorithm
pub mod CommonTypes
pub mod Contenders
pub mod Context
pub mod HexagonSide
pub mod Key
pub mod Layout
pub mod Priority
pub mod SideBattle
pub mod Scripting
pub mod Actions
pub mod FightingPit
pub mod Worker
pub mod BoundaryMap
pub mod Dispatcher
pub mod Encounters
pub mod Announcer
pub mod Arena
pub mod Cache
pub mod Database
pub mod WorldServer
pub mod SizedQueue
pub mod Team
