-- ===== src/Collectors/Base/Steps.antt =====
-- The calls of `run_once` on one collector, where some wait for its lock while others run.
use quant_stack.Prelude.{Bool, List, [], ◌∷◌, ◌==◌, if◌then◌else◌}
use quant_stack.Collectors.Base.{Run, Collector, run_once, enter, hold_lock}

-- What happens to a collector: a whole call of `run_once`; a call that gets as far as the lock, while
-- another one has it or waits; one of those that wait gets the lock. A call that arrives in the middle
-- of a run stands before the start of that run: the stages of a run read and write nothing that the
-- gates do, but the length of the queue, which the one raises and the other lowers, and the status and
-- the breaker are written at the end of the run.
pub data Step (R : Type 0) : Type 0 where
  call : Bool → Run R → Step R
  arrive : Bool → Run R → Step R
  start : Run R → Step R

unfoldable pub take_step : {R : Type 0} → Step R → Collector → Collector
unfolding run_once enter hold_lock
take_step (call force r) c = (run_once r force c).0
take_step (arrive force r) c = (enter r force c).0
take_step (start r) c = if c.health.queue_length == 0 then c else (hold_lock r c).0

unfoldable pub serve : {R : Type 0} → List (Step R) → Collector → Collector
unfolding take_step
serve [] c = c
serve (s ∷ ss) c = serve ss (take_step s c)
