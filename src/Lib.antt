-- ===== src/Lib.antt =====
-- The firmware of an irrigation controller (firmware/, in C for the ESP32) as definitions that
-- compute, with theorems on them.
--
-- The parts and how they work together. `app_main` (firmware/main/system_ready.c) initialises a
-- state store, switches the outputs off, and connects five services to the store: the zone service
-- opens and closes zones through an output driver; the master valve service opens and closes the
-- valve in front of all zones through a valve driver, with a delay before it counts as open; the
-- program service waters one zone after another by calls of both; the scheduler starts programs by
-- the wall clock; the history records executions from the events that the program service publishes
-- on the event bus. A repository keeps the configuration in two slots of a storage.
--
-- The files:
--   Prelude, with Prelude/: tests into Bool, texts, arrays as lists.
--   Result, Domain: firmware/app/result.h, firmware/common/constants.h and the value types under
--     firmware/domain.
--   StateStore: firmware/app/state/state_store.h. StateStore/Tests, /Zones, /MasterValve, /Program
--     and /Scheduler have the operations of state_store.c, each under its C name. /Consistent says
--     what holds between operations, /Writes, /Outcomes, /Safety and /Boot prove that it does.
--   Events, with /Delivery: firmware/app/events.
--   Device: the static objects of system_ready.c as one record, with the clock
--     (firmware/app/clock.c) and the vtables of the drivers. An operation of a service is a
--     function from a device to a device and a result; `do` blocks follow the order of the C calls.
--   ZoneService, with /Closing and the proofs /Prepared, /Opening, /Safety, /Done, /Untouched and
--     /Frame: firmware/domain/zones/zone_service.c.
--   MasterValveService, with /Safety and /Delay: firmware/domain/master_valve.
--   ProgramService, with /Running, /Control and the proofs /Keeping, /SafeSteps, /Safety,
--     /StepIndex and /Refusals: firmware/domain/programs/program_service.c.
--   SchedulerService, with /Processing and the proofs /Frame, /Once, /Configured, /Restoring,
--     /Restored, /Safety and /StepIndex: firmware/domain/scheduler.
--   History, with /Traces: firmware/domain/history.
--   Configuration: the validation of firmware/app/configuration/irrigation_configuration.c.
--   Repository, with /Encode, /Decode, /Slots, /Slots/Storing and the proofs /Parts, /Reading,
--     /Writing, /Lengths, /RoundTrip, /Slots/Saving, /Slots/After, /Slots/Loading and
--     /Slots/Validated: firmware/infrastructure/persistence/configuration_repository.c.
--   ConfigurationManager: the runtime slots of firmware/app/configuration/configuration_manager.c.
--     Its /Placing and /Views have the rebuild, /Replace the transaction of `replace_candidate`,
--     /Candidates and /Edits the changes of zones, programs and schedules, /Defaults and /Boot the
--     compiled defaults, the load, and `initialize_configuration` of system_ready.c. Proofs:
--     /Slots, /Counting, /Agreement, /Placement and /Rebuilt (which slot each program gets), /Fits
--     and /Room (that there is one), /Calls, /Persisted, /Transaction, /Keeping, /Safety and
--     /Served (what calls do), /Booted, /Loaded, /Overflow and /Overfull (the boot), /Numbered (the
--     new ids).
--   OutputDrivers: firmware/hal/outputs/virtual_output_driver.c.
--   Commands, with the proofs /Dispatch: firmware/app/commands, which the start does not use.
--   StatusLed, with the proofs /Shown: firmware/app/status and the vtable of
--     firmware/hal/status_led.
--   Controller, with /Safety and /StepIndex: `app_main`, the calls that tasks and handlers make,
--     and the devices that they reach.
--   Scenarios: concrete devices, tests and applications of the theorems.
--
-- Conventions. `opened` is OPEN, since `open` is a reserved word. An array with its count is a
-- list. A pointer that the code tests for NULL is an `Option`, or a `Pointer` where the object
-- behind it is known. Sums and differences of uint32_t and uint64_t have their wrap-around written
-- out where they can wrap. A helper models part of a C function where its comment says so; the
-- functions with a lock are the lock's frame around a body.
--
-- The manager's buffers are values: an entry of the scheduler holds the program as of the rebuild
-- that wrote it. After a load that has failed, the candidate is what it was, as it is written
-- before each use. A new schedule takes `enabled` from an argument, since the code does not write
-- it.
--
-- Bounds and termination. Every loop is recursion on the list it runs over, or on a count of at
-- most 32. The C library's `%u` is modelled in ten rounds, which print every digit of 32 bits. The
-- clock is any sequence of readings, and a driver is any function.
--
-- Not modelled: log output; the finer interleavings of tasks, since a call of the model runs to its
-- end before the next (the atomic locks are modelled, with their REJECTED); the mutex of the
-- scheduler; the web interface, Wi-Fi, NVS and the board's own drivers; the LED's calls in the
-- start. The storage of the repository is a parameter: `IsHonest` says what is relied on, that a
-- committed blob is read back and that a write leaves other keys alone.
pub mod Prelude
pub mod Result
pub mod Domain
pub mod Configuration
pub mod Repository
pub mod StateStore
pub mod Events
pub mod Device
pub mod OutputDrivers
pub mod ZoneService
pub mod MasterValveService
pub mod ProgramService
pub mod SchedulerService
pub mod History
pub mod ConfigurationManager
pub mod Commands
pub mod StatusLed
pub mod Controller
pub mod Scenarios
