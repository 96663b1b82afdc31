-- ===== src/Examples/Restarts.antt =====
-- observability/run_store.py: a run that is created twice, and a restart.
use jindiao.Prelude.{
  ◌≡◌, refl, String, String_discrete, ◌==◌, true, false, [], ◌∷◌, none, some, lookup, put,
}
use jindiao.Errors.{ok}
use jindiao.Runs.Repository.{
  RunResource, RunRepository, RunStatus, create_run, create_keyed, recover_running,
}
use jindiao.Runs.Creation.{create_run-twice}
use jindiao.Runs.Recovery.{after_restart, recover_running-restart}

abbrev run_of : String → RunResource
run_of id = record {
  run_id = id;
  owner_id = "owner";
  status = RunStatus.running;
  stage = "accepted";
  completed_at = none;
  termination = none;
  projection = "{}";
}

abbrev empty : RunRepository
empty = record { runs = []; idempotency = []; results = [] }

abbrev one_run : RunRepository
one_run = record {
  runs = ("first", run_of "first") ∷ [];
  idempotency = (record { owner_id = "owner"; key = "key" }, ("first", "hash")) ∷ [];
  results = [];
}

created :
    create_run (run_of "first") (some "key") (some "hash") empty
    ≡ ok ((run_of "first", true), one_run)
unfolding create_run create_keyed lookup put ◌==◌
created = refl

create_run-twice_example :
    create_run (run_of "second") (some "key") (some "hash") one_run
    ≡ ok ((run_of "first", false), one_run)
create_run-twice_example =
    create_run-twice (run_of "first") (run_of "second") "key" "hash" empty one_run refl created

recover_running-restart_example :
    (lookup String_discrete "first" (recover_running 7 one_run).1.runs
      ≡ after_restart 7 (lookup String_discrete "first" one_run.runs))
    × ((recover_running 9 (recover_running 7 one_run).1).0 ≡ [])
recover_running-restart_example = recover_running-restart 7 9 one_run "first"
