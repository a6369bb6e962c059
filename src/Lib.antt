-- ===== src/Lib.antt =====
-- A verification library for music-downloader: the domain logic that decides what to download, from
-- whom, and how a delivery enters the library; the reactors that carry out its effects and survive
-- restarts; and the drain that carries events between the modules.
--
-- The program is a monolith of two event-sourced modules and a small shared mechanism. A module
-- keeps one aggregate per stream: `decide` answers a command with events or an error, `evolve`
-- folds events into the state, and `react` names the effects that an event asks for. Effects run in
-- the application layer, and their results come back as commands.
--
-- packages/downloader/src/domain (Downloader):
--   - candidate/candidate.ts, target/target.ts, policy/policies.ts, shared/unit.ts,
--     policy/quality-policy.ts: Downloader/Candidate, Target, Policy, Quality. A smart constructor is a
--     function to `Result`; a double of the unit interval is its number of units of 2^-1074.
--   - shared/duration.ts, matching/text.ts, matching/match-scorer.ts: Downloader/Duration,
--     Matching/Words, Matching. Numbers/Rounding rounds each operation as doubles do, so that a
--     comparison with a threshold comes out as the program's.
--   - validation/verdict.ts, validation/validators.ts: Downloader/Verdict (Verdict/Passing: when
--     a combined verdict passes), Validators.
--   - ranking/ranking.ts: Downloader/Ranking, with `toSorted` in Sorting. Ranking/Gate is about it.
--   - download/{events,commands,state,decide,react,download}.ts: Downloader/Download/Events, Commands,
--     State, Decide, React, Aggregate. A phase is a constructor of `DownloadState`. Runs and History
--     run a list of commands; Moves is the step relation of `decide`; Invariant, Selections,
--     Budget, Termination, Driving, Graph, Redelivery and Guards are about it.
--
-- packages/downloader/src/application/projections/read-models.ts (Downloader/Projection): the
-- status view of a stream, and the map of streams. Views and Streams are about it.
--
-- packages/downloader/src/application/download and adapters/sqlite (Downloader): the log in Log
-- (Eventing/Log, with Rows and Versions about it), the backoff in Retry, the ports, tables and
-- clocks in Machine; command-handler.ts in Handling, interpreter.ts and validation-service.ts in
-- Interpreter, effect-lander.ts and failure-classification.ts in Lander, and reactor.ts in Reactor,
-- Reactor/Scheduler and Reactor/Startup. A machine is the log, the tables and the reactor's fields;
-- each call of a store or a port takes a tick, at which the environment says whether it fails, what
-- a port answers and what others have appended meanwhile. The effects of the download aggregate are
-- interpreted, and their outcomes decided by it, in the same machine. Reactor/Steady, Invariant,
-- Dispatching, Parking, Passes, Passing, CatchingUp, Clearing, Resuming, Rereading, Retrying,
-- Redriving and Lossless are about runs of the reactor.
--
-- packages/importer/src/domain/import (Importer):
--   - {events,commands,state,decide,react,import}.ts: Importer/Import/Events, Commands, State, Decide,
--     React, Aggregate. Runs, Moves and Induction are as above; Nearest, Evidence, Routing, Actions,
--     Owing, Verdicts, Watermark, Graph and Effects are about it.
--
-- packages/importer/src/application/import/command-handler.ts and adapters/sqlite/event-store.ts
-- (Importer/Handling): a handler is split where it awaits, between the read with its decision and
-- the append; an action list says which handler goes on next and whether the database answers.
-- Handling/Interleaving is about it.
--
-- packages/importer/src/application/import/{interpreter,reactor}.ts and adapters/sqlite (Importer):
-- the ports, tables and clocks in Machine, over the log of Eventing/Log; the effects and their
-- commands in Interpreter; the dispatch of events, the retry budget and the checkpoint in Reactor,
-- the drain and the boot in Reactor/Running. The machine is as the downloader's. Reactor/Steady,
-- Settled, Settling, Standing, Moving, Passed, Tallies, Trying, Rising and Polls are about its
-- runs.
--
-- packages/eventing/src/checkpointed-drain.ts (Eventing/Drain): the drain's cursor, halt flag and
-- the calls that it makes. The feed, the checkpoint store and the step are an argument; they answer
-- by a world that moves on with each call, so they may fail at any time. Order, Feed, Consuming,
-- Delivery, Progress, Polls and Healthy are about it.
--
-- Prelude, Text and Sorting hold what the components share. Samples and the modules named Scenarios
-- or ViewScenarios hold concrete runs.
--
-- Parameters. The Unicode tables and the collation of the JavaScript runtime are the record
-- `Runtime`. A command is admissible where a submission carries a retry policy that was created.
--
-- Fuel. `round` halves a grid at most 2046 times, which spans the exponents of a double. The drain
-- takes fuel for its batches, one for each position that the feed can still move to; Progress shows
-- that one more than the head of the feed is enough.
--
-- Not modelled: event metadata with its correlation (packages/eventing/src/correlation.ts), row
-- encoding and upcasting, which no decision reads; the use cases and the consumers of feeds, thin
-- calls of what is modelled; the other adapters, the facades and the web package, which parse
-- input, wait for promises and call other programs; logging, sleeping and timers. A process of a
-- reactor that ends within a pass is one whose store calls fail from there to the end of the pass.
-- The drain's operations are not interleaved, since its own barriers put one after the other.
-- Numbers above 2^53, and negative counts, which the schemas refuse, are left out.
pub mod Prelude
pub mod Text
pub mod Sorting
pub mod Numbers
pub mod Downloader
pub mod Importer
pub mod Eventing
