-- ===== src/Runs/Creation.antt =====
-- A request that is repeated under its idempotency key finds the run of the first one.
use jindiao.Prelude.{
  ◌≡◌, refl, sym, ap, subst, String, String_discrete, true, false, false≢true, ◌==◌, ==_refl,
  Option, none, some, lookup, put, lookup-put_self,
}
use jindiao.Errors.{ok, raise_if, or_key_error, >>=-eq-ok, >>-eq-ok, ok-injective}
use jindiao.Runs.Repository.{
  RunResource, RunRepository, IdempotencyKey, IdempotencyKey-discrete, Created, add_run,
  known_request, create_keyed, key_of_run, create_run,
}

abbrev keyed : RunResource → IdempotencyKey → String → RunRepository → RunRepository
keyed resource k hash repository = add_run resource (record repository {
  idempotency = put IdempotencyKey-discrete k (resource.run_id, hash) repository.idempotency;
})

-- a run that is new is stored with its key
create_keyed-new :
    (resource : RunResource) (k : IdempotencyKey) (hash : String) (held : Option (String × String))
    (repository after : RunRepository)
    → create_keyed resource k hash held repository ≡ ok ((resource, true), after)
    → after ≡ keyed resource k hash repository
unfolding create_keyed known_request
create_keyed-new resource k hash none repository after h =
    sym (ap (λ (c : Created). c.1) (ok-injective h))
create_keyed-new resource k hash (some existing) repository after h =
    let (same, h1) = >>-eq-ok _ _ h in
    let (found, e, h2) =
      >>=-eq-ok (or_key_error (lookup String_discrete existing.0 repository.runs)) _ h1 in
    absurd (false≢true (ap (λ (c : Created). c.0.1) (ok-injective h2)))

create_keyed-known :
    (resource other : RunResource) (k : IdempotencyKey) (hash : String) (repository : RunRepository)
    → create_keyed other k hash
        (lookup IdempotencyKey-discrete k (keyed resource k hash repository).idempotency)
        (keyed resource k hash repository)
      ≡ ok ((resource, false), keyed resource k hash repository)
unfolding create_keyed known_request
create_keyed-known resource other k hash repository =
    rw
      (
        lookup-put_self IdempotencyKey-discrete k (resource.run_id, hash) repository.idempotency,
        ==_refl hash,
        lookup-put_self String_discrete resource.run_id resource repository.runs,
      )
      refl

-- A run that was created under an idempotency key is what a later request of the same owner finds
-- under that key and the same hash, whatever run it asks for, and the request changes nothing.
pub create_run-twice :
    (resource other : RunResource) (key hash : String) (repository after : RunRepository)
    → other.owner_id ≡ resource.owner_id
    → create_run resource (some key) (some hash) repository ≡ ok ((resource, true), after)
    → create_run other (some key) (some hash) after ≡ ok ((resource, false), after)
unfolding create_run
create_run-twice resource other key hash repository after owner h =
    let k = key_of_run resource key in
    let (given, h1) = >>-eq-ok (raise_if (hash == "") _) _ h in
    let stored =
      create_keyed-new resource k hash (lookup IdempotencyKey-discrete k repository.idempotency)
        repository after h1 in
    let found =
      subst
        (λ (r : RunRepository).
          create_keyed other k hash (lookup IdempotencyKey-discrete k r.idempotency) r
          ≡ ok ((resource, false), r))
        (sym stored) (create_keyed-known resource other k hash repository) in
    rw given (
      subst
        (λ (o : String).
          create_keyed other (record { owner_id = o; key = key }) hash
            (lookup IdempotencyKey-discrete (record { owner_id = o; key = key }) after.idempotency)
            after
          ≡ ok ((resource, false), after))
        (sym owner) found)
