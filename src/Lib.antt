-- ===== src/Lib.antt =====
-- COSIDIA is a discrete-event simulator of vehicles that talk by radio. A Core (src/core/Core.cpp)
-- keeps a list of handlers by time and a list of objects. It runs on one thread: the event loop
-- takes the handlers of the next time point and lets each invoke its object, which starts, ends or
-- initialises an action. An object runs one action at a time and queues the others. The work of an
-- action runs in a fiber, and its end hands new actions and new objects to the core. The radio, the
-- routers and the mobility manager are such objects.
--
-- The parts and their files:
--   Prelude, Std    helpers: the library's names, signed integers over the native numbers, the
--                   outcome of fallible code (Prelude/Result), std::map, std::set and, in
--                   Std/Names, std::unordered_set of strings
--   Utils           src/utils: ReadOnly, ContextContainer, PureLocal, AnyMap
--   Core            src/core without the loop: Core/Clock (SimClock, DebugClock),
--                   Core/SteadyClock, Core/UtcTime (getUtcStartTime, setUtcStartTime), Core/Action
--                   (Action, ActionHandler), Core/StateMachine (ActionStateMachine),
--                   Core/ActionList (ActionList), Core/Symbol (Symbol)
--   Objects         src/objects: Objects/Object (BaseObject's state), Objects/ActionManager
--                   (ObjectActionManager), Objects/ActionHistory, Objects/Container (ObjectList, with
--                   Container/Registry, what it promises),
--                   Objects/Cache (SimpleObjectCache), Objects/Relations (the searches by name,
--                   ObjectRemover)
--   Kernel          the Core as a monad on its state: Kernel/Schedule (ids, scheduleAction,
--                   DurationAction, InitAction), Kernel/Execution (startExecutionBase,
--                   endExecutionBase, initObjectBase), Kernel/Loop (runSimulationLoop,
--                   executeActionOnFinishedTimer), Kernel/Shutdown (startThread and
--                   finishSimulation, as steps of the threads)
--   Radio           src/radio: Radio/Transmission, Radio/Decider (the deciders, of which
--                   Decider/Power is the one with noise), Radio/Medium
--                   (Radio, as the behaviour of an object), Radio/MediumAccess
--   Networking      src/networking: Networking/Tracker (ActiveActionTracker),
--                   Networking/AccessInterface, Networking/Runtime (the clock of the network
--                   stack), Networking/Position (PositionProvider), Networking/Dcc
--                   (DccPassThrough), Networking/Router with Router/Stack (its calls of Vanetza),
--                   Router/Tasks (what it runs in fibers) and Router/Behaviour (Router)
--   Vehicles        Vehicles/Temporary (TemporaryObject), Vehicles/Factory (ObjectFactory),
--                   Vehicles/IdMapper, Vehicles/Tasks and Vehicles/Manager (MobilityManager),
--                   Vehicles/Update (VehicleUpdateActionData), Vehicles/Vehicle (VehicleObject),
--                   Vehicles/Traci (SUMO's answers), Vehicles/Sumo (SumoUpdater),
--                   Vehicles/SumoManager (SumoMobilityManager)
--   Application     src/application: Application/Cam (the messages), Application/Internal
--                   (InternalCaService), Application/CaService
--   Output          src/output: Output/Backend (SqliteBackend, as steps of two threads)
--   Traci           src/traci: Traci/Connect (API::connect), Traci/Launcher (PosixLauncher)
--   Start           Start/Config (src/core/Config.cpp), Start/Simulation (SimulationManager,
--                   SimulationStarter), Start/Threads (Core::setup and its worker threads)
--   Fiber           src/fiber: Fiber/WorkStealing (CustomWorkStealing)
--   Tests           concrete inputs
-- A definition has the name of its C++ function in small letters. Fields keep their names without
-- the prefix m. A function that throws returns a Result, with the message of the exception; a
-- state of C++ that is undefined is an error of its own.
--
-- Choices: shared pointers to actions, objects and transmissions are numbers, and `System` holds
-- the heaps behind them (Kernel). Time points are integers of nanoseconds and ids are numbers or
-- integers without a bound: a signed overflow is undefined in C++. The build is the default one,
-- with COSIDIA_SAFE. The test for the core's thread is a Boolean of the state. A fiber runs when it
-- is launched, so an exception of a task leaves the launch; but the router's future keeps it for
-- the end, with a parameter for the state that the task leaves. The virtual methods of an object
-- are a `Behaviour`. Most loops run over lists. The event loop, which has no end of its own, runs
-- for a given number of expiries of its timer. The loop of Router::initRouter has fuel, which is
-- enough where it exceeds the number of callbacks that are due when the loop starts; API::connect
-- has ten rounds of fuel, which is the number of its tries; the long operation of MediumAccess has
-- 31, one for each doubling; the loop that launches the worker threads has fuel, of which 32 is
-- enough with two processors or more; the draws of CustomWorkStealing have fuel that nothing
-- bounds. Vanetza's router and runtime, SUMO's answers, POSIX, Boost's queues, TBB's set and
-- floating point numbers are parameters.
--
-- Not modelled: threads but for the consumer of the output and the end of the workers, timers, the
-- generator of random numbers; the database, the user interface and the reading of the
-- configuration, which are I/O; SUMO's library under src/traci; classes for tests and debugging.
pub mod Prelude
pub mod Std
pub mod Utils
pub mod Core
pub mod Objects
pub mod Kernel
pub mod Radio
pub mod Networking
pub mod Vehicles
pub mod Application
pub mod Output
pub mod Traci
pub mod Start
pub mod Fiber
pub mod Tests
