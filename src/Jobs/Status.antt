-- ===== src/Jobs/Status.antt =====
-- `Status` of queue_stash.py and `JobStatus` of job_stash.py.
use py_syft.Prelude.{ℕ, Bool, ◌==◌}

pub data Status : Type 0 where
  created processing errored completed interrupted : Status

pub data JobStatus : Type 0 where
  job_created job_processing job_errored job_completed job_terminating job_interrupted : JobStatus

abbrev status_number : Status → ℕ
status_number created = 0
status_number processing = 1
status_number errored = 2
status_number completed = 3
status_number interrupted = 4

abbrev pub status_eq : Status → Status → Bool
status_eq a b = status_number a == status_number b
