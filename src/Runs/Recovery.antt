-- ===== src/Runs/Recovery.antt =====
-- What a restart does to the runs.
use jindiao.Prelude.{
  ℕ, ◌≡◌, refl, arith, String, String_discrete, [], ◌∷◌, Option, none, some, Dict, lookup,
  if◌then◌else◌,
}
use jindiao.Runs.Repository.{
  RunStatus, RunResource, RunRepository, is_running, recover_runs, recover_running,
}

-- a run after a restart, spelled out
abbrev pub after_restart : ℕ → Option RunResource → Option RunResource
after_restart now none = none
after_restart now (some r) =
    if is_running r.status
    then some (record r {
      status = RunStatus.failed;
      stage = "terminal";
      completed_at = some now;
      termination = some "interrupted";
    })
    else some r

lookup-recover_runs :
    (now : ℕ) (id : String) (runs : Dict String RunResource)
    → lookup String_discrete id (recover_runs now runs).0
      ≡ after_restart now (lookup String_discrete id runs)
unfolding lookup recover_runs
lookup-recover_runs now id [] = refl
lookup-recover_runs now id ((k, r) ∷ runs) = ground (arith, lookup-recover_runs now id runs)

again-nothing :
    (now later : ℕ) (runs : Dict String RunResource)
    → (recover_runs later (recover_runs now runs).0).1 ≡ []
unfolding recover_runs
again-nothing now later [] = refl
again-nothing now later ((k, r) ∷ runs) = ground (arith, again-nothing now later runs)

-- After a restart every run that was running has the status failed, the stage terminal, the time of
-- the restart as its end and the termination interrupted, and is otherwise as it was; every run that
-- was not running is as it was; and a second recovery finds nothing to do.
pub recover_running-restart :
    (now later : ℕ) (repository : RunRepository) (id : String)
    → (lookup String_discrete id (recover_running now repository).1.runs
        ≡ after_restart now (lookup String_discrete id repository.runs))
      × ((recover_running later (recover_running now repository).1).0 ≡ [])
unfolding recover_running
recover_running-restart now later repository id =
    (lookup-recover_runs now id repository.runs, again-nothing now later repository.runs)
