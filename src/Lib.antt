-- ===== src/Lib.antt =====
-- Ductile, a gateway that runs plugins as jobs: its work queue, the admission of requests, the
-- scheduler, retries, cron expressions, and the router that turns events into jobs.
--
-- Queue models internal/queue/queue.go and the rows of internal/queue/types.go and
-- internal/storage/schema.sql. A database (Queue/Db) is a record of tables, each a list in the
-- order of row numbers; an operation takes the database and gives a result with the database that
-- it leaves. Queue/Types has the statuses, the rows, the errors and `new` for New; Queue/Stamp the
-- order of the time columns; Queue/Enqueue Enqueue and DedupeStatus; Queue/Dequeue Dequeue and
-- DequeueEligible; Queue/Finish UpdateJobForRecovery, Complete, CompleteWithResult and
-- CancelOutstandingJobs; Queue/Prune the five retention functions; Queue/Breaker the circuit
-- breaker rows. Queue/Rows and Queue/Outcomes are lemmas on tables and on what each operation
-- returns. Queue/Safety has a step for each operation with the arguments that internal/dispatch
-- and internal/scheduler pass, and the databases that steps reach. Queue/Selection, Queue/Dedupe,
-- Queue/Endings, Queue/Cancellation and Queue/Retention are about the choice of a job, duplicates,
-- and the end of jobs.
--
-- Admission models internal/state/admission.go: an Admitter asks the queue's DedupeStatus before a
-- context is written, and Admission/Foresight is about the Enqueue that follows.
--
-- Scheduler models internal/scheduler/scheduler.go: Scheduler/Breaker is reconcileCircuitBreaker
-- with the settings of internal/config/types.go, Scheduler/Gate is canSchedule with
-- outstandingForPolicy of internal/scheduler/poll_view.go, Scheduler/Recovery is
-- recoverOrphanedJobs, Scheduler/Window is countMissedRuns and scheduleConstraintsAllowAt,
-- Scheduler/CronDue is evaluateCronDueState. They call the queue's operations.
-- Scheduler/Breaker/Reconciled is about the breaker that a reconciliation leaves in the database,
-- Scheduler/Breaker/Reset about the one after a manual reset, Scheduler/Breaker/History about the
-- breaker over many results.
--
-- Dispatch models what follows a failed run: Dispatch/Retry is decideRetryPolicy of
-- internal/dispatch/retry_policy.go, and calculateBackoffDelay, computeRetryDelay and failOrRetry of
-- internal/dispatch/dispatcher.go, over the queue's operations, and Dispatch/Output the buffers of
-- internal/dispatch/output_limit.go. An int64 is written out as a natural number modulo 2 ^ 64;
-- what the platform makes of a float64 that no int64 holds is an argument, and so is the jitter
-- that was drawn.
--
-- Cron models internal/scheduleexpr/cron.go: Cron/Types the parsed form and Matches, Cron/Parse
-- ParseCron, Cron/Next NextAfter.
--
-- Router models internal/router. Router/Conditions is internal/router/conditions: Types has the
-- condition trees and the values of JSON and YAML, Paths ResolvePath and ReferencesRoot, Eval Eval,
-- Validate Validate. Router/Dsl is internal/router/dsl: Types is types.go, Order the sorts, Checks
-- the checks on baggage and relays, Build compileBuilder, Dag validatePipelineDAG, Compile
-- compilePipeline, Routes BuildCompiledRoutes, Calls validatePipelineCalls, which are in compiler.go.
-- Router/Index is the types of internal/router/interface.go and the indices that New of
-- internal/router/engine.go fills, Router/Engine Next, NextHook and GetEntryDispatches of that file;
-- the first two evaluate the conditions of entry routes. The modules below Build, Dag, Compile, Calls and Engine are their
-- lemmas. The jobs that Next returns are what internal/dispatch hands to the queue's Enqueue.
--
-- A Host is what the conditions use of packages regexp and unicode and of float64: whether a pattern
-- compiles, whether a compiled pattern matches, the lower case of a text, and conversions and
-- comparisons on the bits of floats. A compiled pattern stands as the pattern. A map is the list of
-- its entries, the first with a key counts, and a loop over a map takes the order of the list. The
-- router of a configuration is the list of its pipelines, and the cancellation of a request's context
-- is not modelled.
--
-- Examples runs the theorems on small data.
--
-- Times are nanoseconds since the epoch, as natural numbers, and each operation reads the clock
-- once. Failures of the database itself, contexts and logs are not modelled. Strings are lists of
-- code points, and stderr a list of bytes. The id that uuid.NewString gives is an argument, which
-- has no recorded attempt yet where a request is accepted in a step. The snapshot provider's
-- answer is a field of the queue. Time zones and the calendar are arguments: the civil fields of a
-- time, and the time five years on. ToLower is written out for ASCII and for the two other letters
-- whose lower case is ASCII. Where SQL leaves the order of equal rows open, the row number
-- decides. The pruning of job_transitions is modelled and is no step, since it deletes facts that
-- the lineage rests on.
--
-- The loop of NextAfter has as fuel one more than the deadline less the first minute, and each
-- round moves one minute on. The loop of a cron segment has as fuel one more than its end, and
-- each round moves the positive step on. The search for a free step id has as fuel one more than the
-- nodes, since that many candidates cannot all be taken. The queue of validatePipelineDAG has as fuel
-- the number of nodes, each of which is queued once, and the walk of validatePipelineCalls one more
-- than the pipelines, each of which is entered once. The calls that Next follows have their fuel as an
-- argument. Every other loop is structural.
--
-- Not modelled: the tick loop of the scheduler and its entries' state, the listings of the queue,
-- the plugin processes of the dispatcher, the greatest depths and the fingerprints of pipelines, the
-- listings of the router, baggage and contexts, the configuration, the vault, the relay, the webhooks,
-- the API and the command line.
pub mod Common
pub mod Queue
pub mod Admission
pub mod Scheduler
pub mod Cron
pub mod Dispatch
pub mod Examples
pub mod Router
