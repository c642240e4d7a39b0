-- ===== src/Lib.antt =====
-- A verification library for mimirheim, an MQTT service that plans the energy flows of a household.
--
-- Messages fill a readiness state (mimirheim/core/readiness.py); once it is ready a bundle is solved,
-- the result passes the gain threshold (mimirheim/core/post_process.py) and then the choice of one
-- closed-loop enforcer for each step (mimirheim/core/control_arbitration.py). Series are merged and
-- resampled by mimirheim/core/forecast.py, and mimirheim/core/battery_care.py decides when a battery
-- has to be charged full. Helper daemons in mimirheim_helpers feed the topics.
--
-- Files:
--   Prelude        shared notation, Boolean tests, lists, dicts, a stable sort, the float interface
--   Forecast       mimirheim/core/forecast.py; Forecast.Merge is merge_price_sources
--   BatteryCare    mimirheim/core/battery_care.py
--   Readiness      mimirheim/core/readiness.py: construction, update and the record of full charges;
--                  Readiness.Coverage is the readiness test, Readiness.Snapshot and Readiness.Inputs
--                  the snapshot
--   SolveLoop      mimirheim/__main__.py: clipping and one iteration of the solve loop, which composes
--                  the snapshot's bundle, the solve, PostProcess and Arbitration
--   Solver         mimirheim/core/solver_backend.py: what devices hand to the solver; Solver.Sos is
--                  add_sos2
--   Devices        of mimirheim/devices: grid.py, deferrable_load.py, pv.py and thermal_boiler.py
--   PostProcess    mimirheim/core/post_process.py
--   Arbitration    mimirheim/core/control_arbitration.py: Score ranks candidates, Choose keeps or
--                  selects an enforcer, Assign writes the flags of the schedule; Schedule follows the
--                  role over the steps
--   Daemon         the message handler of mimirheim_helpers/common/helper_common/daemon.py
--   Cron           mimirheim_helpers/scheduler/scheduler/cron.py; Cron.Standard is a definition of the
--                  weekday field of cron that uses none of its tables and parsers
--   Config, Bundle the fields of mimirheim/config/schema.py and mimirheim/core/bundle.py in use
--   Examples       a household for the tests
-- The definitions carry the names of the functions they model, without a leading underscore. The
-- parts of a long function are definitions of their own, which its definition composes.
--
-- Instants and durations are natural numbers of UTC microseconds. Floats are a type with the interface
-- Prelude.Float: the operations that the code calls, sum() among them, with the documented order of floats that are no
-- NaN and the sign rule of negation; nothing is assumed of rounding. Prelude.Fixed gives it
-- thousandths as an instance. Where the code divides seconds by the float step duration with an
-- epsilon of 1e-9, the model computes with the rational numbers that are meant. Every loop is structural
-- recursion; only the range of a cron term counts down from the number of days between its ends, which
-- is enough for every step. A call of the clock is an argument.
--
-- python-mip is the interface Solver.Linear, a parameter of the devices: linear expressions, solutions,
-- the value of an expression in a solution with the laws of exact linear arithmetic, and integrality.
-- The theorems on devices hold for every solution of every model that extends the device's own, so they
-- do not depend on the other devices or on the objective. Solver.Exact gives the interface integers.
-- build_and_solve is a parameter of the solve loop; a Fault is the exception, if any, that strikes after
-- it: in the post-processing, the hand-over of the care overrides or the publication.
--
-- Not modelled: the battery, EV, hybrid and the other heat devices, the objective, CBC itself, the MQTT
-- connection, threads, logging, dumps, the validators of the schema, and the helpers besides their
-- message handler and the cron translation.
pub mod Prelude
pub mod Examples
pub mod Forecast
pub mod BatteryCare
pub mod Config
pub mod Bundle
pub mod Arbitration
pub mod PostProcess
pub mod SolveLoop
pub mod Cron
pub mod Solver
pub mod Devices
pub mod Readiness
pub mod Daemon
