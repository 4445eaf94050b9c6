-- ===== src/Lib.antt =====
-- Verification library of iotic, a daemon that switches and modulates electric consumers by the
-- surplus of a photovoltaic system.
--
-- The parts of the program and how they interact. Each time the site's powers change,
-- PowerManager (src/strategies/PowerManager.cpp) asks the strategies of StrategyRepository, in the
-- order of their priority, whether they want to step down or up, lets at most one of them step and
-- tells the others to modulate. A strategy belongs to one thing: MultiPhaseStrategy switches the
-- outputs of a relay in turn, WallboxStrategy the phases and the current of a charging station, and
-- RuleActuationStrategy a switch by two expressions over symbols, which RuleEngine keeps up to date
-- with the things that they are named for. StrategyFactory makes the strategy of a new thing from
-- the configuration, which also keeps what things publish about themselves. Things are found through
-- CoAP messages and link documents and through services of the network; their powers are recorded
-- in a database, whose past days are averaged, compressed and archived when the web application first
-- asks for them. The web server tells every client of the web application what things publish, takes
-- the settings that a client sends, among them the interval at which ThingsManager asks the things,
-- and answers requests for things, strategies, symbols and parts of the site's history.
--
-- Which file models which part:
--   Prelude            names of the library, tests, lists and integers that the parts share
--   Strategies/Strategy, Strategies/StrategyRepository, Strategies/PowerManager,
--   Strategies/MultiPhase, Strategies/Wallbox
--                      the files of these names under src/strategies; the virtual functions are the
--                      record StrategyOps, the list of shared pointers a list of positions in a store
--   Strategies/RuleActuation   src/rules/RuleActuationStrategy.cpp
--   Strategies/Description   the descriptions of the strategies as JSON, in their files
--   Rules/SymbolRepository, Rules/RuleEngine, Rules/StrategyFactory
--                      the files of these names under src/rules; Rules/RuleEngine/Parser is
--                      `createParser`
--   Config/ConfigRepository, Config/Keys
--                      src/config/ConfigRepository.cpp, src/config/ConfigRepository.h
--   Coap/Message, Coap/CoreLink, Coap/Discovery
--                      src/coap/CoapMessage.cpp, src/coap/CoreLinkDocument.cpp,
--                      src/coap/CoapDiscovery.cpp with src/coap/CoapThing.cpp
--   Stats/StatsDaily   src/stats/StatsDaily.cpp
--   Cli                src/cli/Cli.cpp, src/main.cpp
--   Coap/Flap          the flaps in src/things/ThingDiscovery.cpp and src/appDiscover/AppDiscover.cpp
--   AppDiscover        src/appDiscover/AppDiscover.cpp, src/fronius/FroniusDiscovery.cpp
--   Common/Date, Common/Scheduler
--                      src/common/Util.cpp, src/common/RppUvw.h
--   Database/Types, Database/Delta, Database/Cbor, Database/Downsample
--                      src/database/DatabaseTypes.h, src/database/DatabaseUtil.cpp
--   Database/Store, Database/Archive, Database/Samples
--                      src/database/Database.cpp, src/database/ArchiveDayUseCase.cpp
--   Database/Maps      the names of the maps, and src/appDatabase/AppDatabase.cpp
--   WebServer/SiteHistory, WebServer/Router, WebServer/Behavior, WebServer/Messages,
--   WebServer/DateRoute, WebServer/Routes, WebServer/Broadcast
--                      src/webserver/WebAppRouter.cpp, src/webserver/WebAppBehavior.cpp,
--                      src/webserver/WebServer.cpp
--   Things/ThingsManager, Things/ThingDiscovery, Things/ThingInfo, Things/ThingValue
--                      the files of these names under src/things
--   Things/Shelly      src/shelly/ShellyGen2Thing.cpp
--   System             src/appDaemon/AppBackend.cpp: the parts that things and powers drive, together;
--                      System/Daemon has the clients of the web server as well
--   Runs               runs and the theorems at concrete inputs
-- A function of the source has its name in lower case with underscores (`wantsToStepUp` is
-- `wants_to_step_up`); a handler that the source passes as a lambda is named for what it handles. An
-- object is a record, and a call that changes it returns the new one; what it sends to a thing is
-- kept in a list `sent`. Files below a part's own file hold its theorems.
--
-- Bounds and fuel. Numbers without a sign of 16 and 32 bits wrap around where the source computes
-- with them; `int`, whose overflow is undefined, is unbounded, and so are times in seconds. Where a
-- wider number becomes an `int` (an integer of JSON, the energies and times of StatsDaily, the divisor
-- of an archive), it is cut to 32 bits, and `cborDecode` is given none but those of an `int`. The loop over the options of a CoAP message runs on fuel, as many rounds as bytes remain, and the theorem
-- on `decode` shows that this is enough: each round takes a byte. The decimal digits of a number have
-- one round more than its value, and each round takes a digit. Undefined behaviour of the source
-- (a read outside a vector or a view, a division by zero) is a value of its own, `none` or `fault`.
-- A call of the database that can throw ends with the store that it leaves, marked as returned or
-- thrown.
--
-- Parameters. The arithmetic of `float` and `double` with its filter, the compiler and the
-- evaluation of expressions, the values of the configuration's file format, the strategies of the power
-- manager and the bytes of the CBOR library are arguments of the definitions. The environment of
-- libmdbx is the record `Environment` of Database/Environment: its maps by name, with the documented
-- behaviour of its calls as laws; the runs fill it with an environment in memory.
--
-- What a thing of the library's repository becomes when properties are set on it, and what it then
-- publishes, are two functions of Hub's events. WebServer/Broadcast/Hub keeps for each open client
-- what it was sent.
--
-- Not modelled: the file of the database and its statistics, the parsers of expressions, of JSON and
-- of the configuration file, sockets and the matching of paths, the protocols of Modbus and SunSpec
-- devices, the charge point protocol and the logging, which only write text, the event loop and the
-- user interface.
pub mod Prelude
pub mod Config
pub mod Strategies
pub mod Rules
pub mod Coap
pub mod AppDiscover
pub mod Cli
pub mod Common
pub mod Database
pub mod Things
pub mod WebServer
pub mod Stats
pub mod System
pub mod Runs
