-- ===== src/Worker/Poller/Outcome.antt =====
-- The outcomes of the wait for a human.
use ponko.Common.{List, [], ◌∷◌}
use ponko.Orchestrator.{Call, enqueue, Job}

-- The jobs among the calls.
abbrev pub enqueued : List Call → List Job
enqueued [] = []
enqueued (enqueue job ∷ calls) = job ∷ enqueued calls
enqueued (_ ∷ calls) = enqueued calls
