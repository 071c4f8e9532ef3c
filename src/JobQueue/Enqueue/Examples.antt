-- ===== src/JobQueue/Enqueue/Examples.antt =====
-- Tests of the capabilities, and the enqueueing of a poll tick that was dead-lettered.
use beampipe_core_v.Common.{◌≡◌, refl, String, none, ok, err, List, [], ◌∷◌}
use beampipe_core_v.Common.Int.{pos}
use beampipe_core_v.JobQueue.{JobStatus, JobRow, Store}
use beampipe_core_v.JobQueue.Enqueue.{JobEnqueueOptions, capabilities_for, inserted}
use beampipe_core_v.JobQueue.Enqueue.Capabilities.{EnqueueError}

abbrev options : JobEnqueueOptions
options = record { pool = none; required_capabilities = []; priority = none }

abbrev tick : JobRow String
tick = record (inserted 5 1 "slurm_poll_tick" "" "slurm" "default" [] "" (pos 0)) {
  status = JobStatus.dead_letter;
  attempts = 3;
}

abbrev queue : Store String
queue = record { jobs = tick ∷ []; workers = []; history = [] }

normal_form : capabilities_for "execute" (" b " ∷ "a" ∷ "b" ∷ []) ≡ ok ("a" ∷ "b" ∷ [])
unfolding capabilities_for
normal_form = refl

blank : capabilities_for "execute" ("a" ∷ " " ∷ []) ≡ err EnqueueError.blank_capability
unfolding capabilities_for
blank = refl

abbrev slurm : List String
slurm = "deployment:slurm_remote" ∷ []
