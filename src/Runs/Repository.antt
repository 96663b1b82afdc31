-- ===== src/Runs/Repository.antt =====
-- observability/run_store.py: `InMemoryRunRepository`.
-- A run is cut to the fields that the repository reads or writes; `projection` stands for the rest.
use jindiao.Prelude.{
  ℕ, String, String_discrete, Bool, true, false, not, ◌==◌, List, [], ◌∷◌, Option, none, some, Dict,
  lookup, has_key, put, if◌then◌else◌,
}
use jindiao.Errors.{Reason, Result, ok, ◌>>=◌, ◌>>◌, raise_if, or_key_error, value_error, key_error}

pub data RunStatus : Type 0 where
  accepted running completed partial failed cancelled : RunStatus

abbrev pub is_running : RunStatus → Bool
is_running RunStatus.running = true
is_running _ = false

pub record RunResource : Type 0 where
  pub run_id : String
  pub owner_id : String
  pub status : RunStatus
  pub stage : String
  pub completed_at : Option ℕ
  pub termination : Option String
  pub projection : String

pub record IdempotencyKey : Type 0 where
  pub owner_id : String
  pub key : String

unfoldable pub IdempotencyKey-discrete : Discrete IdempotencyKey
IdempotencyKey-discrete = hlevel String_discrete

-- A public result stands as its text.
pub record RunRepository : Type 0 where
  pub runs : Dict String RunResource
  pub idempotency : Dict IdempotencyKey (String × String)
  pub results : Dict String String

-- What `create` returns, and the repository after it.
abbrev pub Created : Type 0
Created = (RunResource × Bool) × RunRepository

abbrev pub add_run : RunResource → RunRepository → RunRepository
add_run resource repository = record repository {
  runs = put String_discrete resource.run_id resource repository.runs;
}

-- The request of an idempotency key that is known.
unfoldable pub known_request : String → String × String → RunRepository → Result Created
known_request request_hash existing repository = do
  raise_if (not (existing.1 == request_hash)) (value_error Reason.idempotency_conflict)
  found ← or_key_error (lookup String_discrete existing.0 repository.runs)
  ok ((found, false), repository)

unfoldable pub create_keyed :
    RunResource
    → IdempotencyKey
    → String
    → Option (String × String)
    → RunRepository
    → Result Created
unfolding known_request
create_keyed resource key request_hash (some existing) repository =
    known_request request_hash existing repository
create_keyed resource key request_hash none repository = ok (
  (resource, true),
  add_run resource (record repository {
    idempotency =
        put IdempotencyKey-discrete key (resource.run_id, request_hash) repository.idempotency;
  }),
)

abbrev pub key_of_run : RunResource → String → IdempotencyKey
key_of_run resource key = record { owner_id = resource.owner_id; key = key }

abbrev pub or_empty : Option String → String
or_empty none = ""
or_empty (some text) = text

-- `create`, with its optional key and hash
unfoldable pub create_run :
    RunResource → Option String → Option String → RunRepository → Result Created
unfolding create_keyed
create_run resource none request_hash repository =
    ok ((resource, true), add_run resource repository)
create_run resource (some key) request_hash repository = do
  raise_if (or_empty request_hash == "") (value_error Reason.idempotency_hash_required)
  create_keyed resource (key_of_run resource key) (or_empty request_hash)
      (lookup IdempotencyKey-discrete (key_of_run resource key) repository.idempotency) repository

-- `save`
unfoldable pub save : RunResource → RunRepository → Result (RunResource × RunRepository)
save resource repository = do
  raise_if (not (has_key String_discrete resource.run_id repository.runs)) key_error
  ok (resource, add_run resource repository)

-- `save_result`
unfoldable pub save_result : String → String → RunRepository → Result RunRepository
save_result run_id result repository = do
  raise_if (not (has_key String_discrete run_id repository.runs)) key_error
  ok (record repository { results = put String_discrete run_id result repository.results })

-- The copy of a run that a restart has interrupted.
abbrev pub interrupted : ℕ → RunResource → RunResource
interrupted now r = record r {
  status = RunStatus.failed;
  stage = "terminal";
  completed_at = some now;
  termination = some "interrupted";
}

-- The runs after the loop of `recover_running`, and those that it returns.
unfoldable pub recover_runs :
    ℕ → Dict String RunResource → Dict String RunResource × List RunResource
recover_runs now [] = ([], [])
recover_runs now ((id, r) ∷ runs) =
    let rest = recover_runs now runs in
    if is_running r.status
    then ((id, interrupted now r) ∷ rest.0, interrupted now r ∷ rest.1)
    else ((id, r) ∷ rest.0, rest.1)

-- `recover_running`
unfoldable pub recover_running : ℕ → RunRepository → List RunResource × RunRepository
unfolding recover_runs
recover_running now repository =
    let recovered = recover_runs now repository.runs in
    (recovered.1, record repository { runs = recovered.0 })
