-- ===== src/Lib.antt =====
-- The verification library of QuantStack's backend (Python, backend/app): the services that the rest
-- of the platform stands on, and the core of its signal pipeline.
--
-- Parts and files.
--   Core.CircuitBreaker, Core.BreakerRegistry: backend/app/core/circuit_breaker.py. A breaker is a
--     record, `step` is one call of allow_request, record_success or record_failure, `run` a history
--     of calls. The registry hands out one breaker to a name.
--   Core.Container: backend/app/core/container.py, the factories and the services built from them.
--   Core.Alerts: backend/app/core/alerts.py, the fan-out to the sinks and the bounded history.
--   Events.Bus: backend/app/events/bus.py. `publish` is EventBus.publish with the deliveries that it
--     gathers; `replay_dead_letter` publishes again.
--   Collectors.Registry: backend/app/collectors/registry.py, the collectors by name and the order of
--     their dependencies.
--   Collectors.Base: backend/app/collectors/base.py. `run_once` passes the market-hours gates and the
--     collector's breaker (Core.CircuitBreaker), then runs the lifecycle and writes the health record.
--   Prediction.Lifecycle: backend/app/prediction/lifecycle.py. Stages and LifecycleState are the
--     machine, Log the rows of MarketEvent and their replay, Manager the requests.
--   Prediction.Duplicate: backend/app/prediction/duplicate.py, the greedy pass over ranked signals.
--   Prediction.Labeling: backend/app/prediction/labeling.py. `examine` is the body of the loop of
--     label_single_entry up to its exits, `ratchet` the trailing stop behind it, History the labels of
--     a series of candles.
--   Collectors.TickAggregator: backend/app/collectors/tick_aggregator.py. `update_bar` is _update_bar,
--     `fold_rows` the candle that _upsert_rollups makes of the rows of a window.
--   Features.Schema, Features.Structure: backend/app/features/schema.py and the two passes of
--     structure.py. Swings are its pivots, Bar one round of its loop over the bars, Measures what the
--     round computes from them; Sessions is the session pass, with the volume profile in Profile.
--   Prediction.Agreement: backend/app/prediction/agreement.py, the votes of an ensemble's models.
--   Prediction.Qualification: backend/app/prediction/qualification.py, the gate of seven checks.
--   Prediction.Priority: backend/app/prediction/priority.py. `rank` scores the candidates that qualify
--     and sorts them; Pipeline is rank_and_filter, which hands them to Prediction.Duplicate.
--   Prediction.Ensemble: backend/app/prediction/ensemble.py. Specs are the features, Join the
--     point-in-time join with the labels, Training the fit, Blend the weighted average, Engine `train`
--     and `predict` with the trainings that are kept. The models of the libraries are a parameter.
--   Features.Registry: backend/app/features/registry.py. `drain` is the loop of dependency_order over the
--     pairs of an upstream feature and one that depends on it (`arrows`), `spread` that of dependents_of.
--   Prediction.Candidates: backend/app/prediction/candidates.py, since when a signal stands, its
--     direction and its lifetime.
--   Prelude: tests into Bool, lists, dictionaries (association lists in order of insertion), bounded
--     deques and integers, which the parts share.
--
-- How the code is read.
--   Clocks are arguments: an instant or a monotonic time is a number of ticks. Ids that uuid4 mints
--   are arguments too. A method that mutates its object returns the new record.
--   Exceptions are values: a result type of the part's own. What a handler, a hook, a sink, a factory
--   or a query does is a function of the model's user.
--   Python's dictionaries keep their order of insertion, which Dict keeps as well.
--   Floats: latencies and delays are numbers of the smallest unit. In Duplicate a correlation is an
--     integer in units of 10 ^ -16. Labeling, Structure, Ensemble, Agreement, Qualification, Priority
--     and Candidates have the floats with the operations that they use as a parameter
--     (Prelude.Floats), and assume where they say so that `<=` is a total order on it; what they
--     divide by is not 0, but for the entry price of a label, where the model has the error, and no
--     float is a NaN, so that `>` is the negation of `<=`.
--
-- Concurrency. A request to the lifecycle manager runs under the lock of its id, so it is one step.
-- A call of run_once passes the gates and the breaker, and waits for the collector's lock; the run
-- that holds the lock is one step. Collectors.Base.Steps puts these halves of different calls in any
-- order. The deliveries that publish gathers end in any order: a `Schedule` picks it. That several
-- publishes interleave is not modelled.
--
-- Fuel. Collectors.Registry.visit has one level more than there are collectors: the recursion of the
-- code is as deep as the longest chain of distinct names. The loops of Features.Registry have a round
-- for each feature, and one for the feature that is asked for: each takes another feature from the
-- queue. The search of Prediction.Ensemble.Join has as many rounds as the series is long: each halves
-- what is left. The value area of Features.Structure.Sessions has thirty rounds, as it has thirty bins:
-- each takes one more bin. All else is structural.
--
-- Not modelled: log lines, the import of collectors and the scheduler's jobs, the HTTP API, the
-- database behind the queries, the snapshot of a breaker that run_once files in `extras`, the quality
-- score that the pipeline files there, the normalization of feature series, the hash of a training set and
-- the registry of models, and the engines that are not listed above.
pub mod Prelude
pub mod Core
pub mod Events
pub mod Features
pub mod Prediction
pub mod Collectors
