-- ===== src/Store/Evolve/Fenced.antt =====
-- `Evolves` for the operations on leases and attempts, and for `transition_run`.
use diagops.Base.{
  ℕ, suc, true, Option, none, some, ◌≡◌, refl, sym, ◌∙◌, ◌+◌, ok, arith, inl, inr, Option-cases,
}
use mathlib.Core.Path.{subst}
use diagops.Base.Dict
use diagops.Domain.Status.{
  RunStatus, AttemptStatus, allowed_transitions, ensure_run_transition, ensure_attempt_transition,
}
use diagops.Domain.Run.{RuntimeRun, RuntimeAttempt}
use diagops.Store.State.{
  Env, Store, require_run, transitioned, end_attempts, attempt_target, apply_transition, log,
}
use diagops.Store.Guards.{validate_fence}
use diagops.Store.Runs.{transition_run}
use diagops.Store.Leases.{
  acquire_lease, leased_run, is_startable, create_attempt, transition_attempt, renew_lease,
  reserve_model_turn,
}
use diagops.Store.Evolve.{RunFacts, AttemptFacts, Evolves, IsKeyed}
use diagops.Store.Evolve.Parts.{
  StatusStep-refl, StatusStep-of_allowed, Evolves-refl, put-RunStep, put-AttemptStep,
  end_attempts-AttemptStep, LogStep-refl, AttemptStep-refl, RunStep-refl,
}

pub transitioned-RunFacts :
    (run : RuntimeRun) (target : RunStatus) (now : ℕ)
    → allowed_transitions run.status target ≡ true
    → RunFacts (some target) run (transitioned run target now)
unfolding transitioned
transitioned-RunFacts run target now h = record {
  id = refl;
  investigation_id = refl;
  run_kind = refl;
  status = StatusStep-of_allowed run.status target h;
  lease_version = omega arith;
  idle = λ i e. ground arith;
}

-- A run that is written back, with the attempts and logs left alone.
pub put_run-Evolves :
    {m : Option RunStatus} (s : Store) (k : ℕ) (r r' : RuntimeRun)
    → Dict.get s.runs k ≡ some r
    → RunFacts m r r'
    → Evolves m s (record s { runs = Dict.put s.runs k r' })
unfolding log
put_run-Evolves s k r r' found facts = record {
  runs = put-RunStep s.runs k r r' found facts;
  attempts = λ j. AttemptStep-refl (Dict.get s.attempts j);
  logs = λ j. LogStep-refl j (log s j);
}

pub put_attempt-Evolves :
    {m : Option RunStatus} (s : Store) (k : ℕ) (t' : RuntimeAttempt)
    → ((t : RuntimeAttempt) → Dict.get s.attempts k ≡ some t → AttemptFacts t t')
    → Evolves m s (record s { attempts = Dict.put s.attempts k t' })
unfolding log
put_attempt-Evolves s k t' facts = record {
  runs = λ j. RunStep-refl _ (Dict.get s.runs j);
  attempts = put-AttemptStep s.attempts k t' (elim (Option-cases (Dict.get s.attempts k)) [
    | inl e ↦ rw e tt
    | inr (t, e) ↦ rw e (facts t e)
  ]);
  logs = λ j. LogStep-refl j (log s j);
}

pub transition_run-ok :
    (s : Store) (run_id : ℕ) (expected target : RunStatus) (owner version : Option ℕ) (now done : ℕ)
    {r : RuntimeRun} {s' : Store}
    → transition_run s run_id expected target owner version now done ≡ ok (r, s')
    → (run : RuntimeRun) × (Dict.get s.runs run_id ≡ some run)
      × (allowed_transitions run.status target ≡ true)
      × (s' ≡ record s {
        runs = Dict.put s.runs run.id (transitioned run target done);
        attempts = end_attempts run.id (attempt_target target) done s.attempts;
      })
unfolding transition_run require_run validate_fence apply_transition ensure_run_transition
transition_run-ok s run_id expected target owner version now done h = ground arith

pub transition-Evolves :
    (s : Store) (k : ℕ) (run : RuntimeRun) (target : RunStatus) (now : ℕ)
    → Dict.get s.runs k ≡ some run
    → run.id ≡ k
    → allowed_transitions run.status target ≡ true
    → Evolves (some target) s (record s {
      runs = Dict.put s.runs run.id (transitioned run target now);
      attempts = end_attempts run.id (attempt_target target) now s.attempts;
    })
unfolding log
transition-Evolves s k run target now found keyed h = record {
  runs =
      put-RunStep s.runs run.id run (transitioned run target now)
        (subst (λ j. Dict.get s.runs j ≡ some run) (sym keyed) found)
        (transitioned-RunFacts run target now h);
  attempts = end_attempts-AttemptStep run.id (attempt_target target) now s.attempts;
  logs = λ j. LogStep-refl j (log s j);
}

pub transition_run-Evolves :
    (s : Store) (run_id : ℕ) (expected target : RunStatus) (owner version : Option ℕ) (now done : ℕ)
    {r : RuntimeRun} {s' : Store}
    → IsKeyed s
    → transition_run s run_id expected target owner version now done ≡ ok (r, s')
    → Evolves (some target) s s'
transition_run-Evolves s run_id expected target owner version now done keyed h =
    let (run, found, legal, final) =
      transition_run-ok s run_id expected target owner version now done h in
    rw final (transition-Evolves s run_id run target done found (keyed run_id run found) legal)

leased-RunFacts :
    (env : Env) (run : RuntimeRun) (owner now : ℕ)
    → is_startable run.status ≡ true
    → RunFacts (some RunStatus.running) run (leased_run env run owner now)
leased-RunFacts env run owner now h = record {
  id = refl;
  investigation_id = refl;
  run_kind = refl;
  status = ground arith;
  lease_version = omega arith;
  idle = λ i e. cc;
}

pub acquire_lease-ok :
    (env : Env) (s : Store) (run_id owner : ℕ) (expected : RunStatus) (now : ℕ) {run' : RuntimeRun}
    {s' : Store}
    → acquire_lease env s run_id owner expected now ≡ ok (some run', s')
    → (run : RuntimeRun) × (Dict.get s.runs run_id ≡ some run)
      × (is_startable run.status ≡ true)
      × (run' ≡ leased_run env run owner now)
      × (s' ≡ record s { runs = Dict.put s.runs run_id (leased_run env run owner now) })
unfolding acquire_lease require_run ensure_run_transition
acquire_lease-ok env s run_id owner expected now h = ground arith

pub acquire_lease-none :
    (env : Env) (s : Store) (run_id owner : ℕ) (expected : RunStatus) (now : ℕ) {s' : Store}
    → acquire_lease env s run_id owner expected now ≡ ok (none, s')
    → s' ≡ s
unfolding acquire_lease require_run ensure_run_transition
acquire_lease-none env s run_id owner expected now h = ground arith

pub acquire_lease-Evolves :
    (env : Env) (s : Store) (run_id owner : ℕ) (expected : RunStatus) (now : ℕ) {run' : RuntimeRun}
    {s' : Store}
    → acquire_lease env s run_id owner expected now ≡ ok (some run', s')
    → Evolves (some RunStatus.running) s s'
acquire_lease-Evolves env s run_id owner expected now h =
    let (run, found, startable, _, final) = acquire_lease-ok env s run_id owner expected now h in
    rw final (
      put_run-Evolves s run_id run (leased_run env run owner now) found
        (leased-RunFacts env run owner now startable))

create_attempt-ok :
    (s : Store) (attempt : RuntimeAttempt) (owner version now : ℕ) {a : RuntimeAttempt} {s' : Store}
    → create_attempt s attempt owner version now ≡ ok (a, s')
    → (Dict.get s.attempts attempt.id ≡ none)
      × (s' ≡ record s { attempts = Dict.put s.attempts attempt.id attempt })
unfolding create_attempt require_run validate_fence
create_attempt-ok s attempt owner version now h = ground arith

pub create_attempt-Evolves :
    {m : Option RunStatus} (s : Store) (attempt : RuntimeAttempt) (owner version now : ℕ)
    {a : RuntimeAttempt} {s' : Store}
    → create_attempt s attempt owner version now ≡ ok (a, s')
    → Evolves m s s'
create_attempt-Evolves s attempt owner version now h =
    let (absent, final) = create_attempt-ok s attempt owner version now h in
    rw final (put_attempt-Evolves s attempt.id attempt (λ t e. cc))

transition_attempt-ok :
    (s : Store) (attempt_id : ℕ) (expected target : AttemptStatus) (owner version now done : ℕ)
    {a : RuntimeAttempt} {s' : Store}
    → transition_attempt s attempt_id expected target owner version now done ≡ ok (a, s')
    → (t : RuntimeAttempt) × (Dict.get s.attempts attempt_id ≡ some t)
      × AttemptFacts t a
      × (s' ≡ record s { attempts = Dict.put s.attempts attempt_id a })
unfolding transition_attempt require_run validate_fence ensure_attempt_transition
transition_attempt-ok s attempt_id expected target owner version now done h = ground arith

pub transition_attempt-Evolves :
    {m : Option RunStatus} (s : Store) (attempt_id : ℕ) (expected target : AttemptStatus)
    (owner version now done : ℕ) {a : RuntimeAttempt} {s' : Store}
    → transition_attempt s attempt_id expected target owner version now done ≡ ok (a, s')
    → Evolves m s s'
transition_attempt-Evolves s attempt_id expected target owner version now done {a} h =
    let (t, found, facts, final) =
      transition_attempt-ok s attempt_id expected target owner version now done h in
    rw final (put_attempt-Evolves s attempt_id a (λ u e. ground arith))

-- A run of which only other fields change.
pub kept-RunFacts :
    {m : Option RunStatus} {r r' : RuntimeRun}
    → r'.id ≡ r.id
    → r'.investigation_id ≡ r.investigation_id
    → r'.run_kind ≡ r.run_kind
    → r'.status ≡ r.status
    → r'.lease_version ≡ r.lease_version
    → r'.lease_owner ≡ r.lease_owner
    → RunFacts m r r'
kept-RunFacts {m} {r} {r'} id investigation kind status version owner = record {
  id = id;
  investigation_id = investigation;
  run_kind = kind;
  status = rw status (StatusStep-refl m r.status);
  lease_version = omega arith;
  idle = λ i e. owner ∙ i (rw (← status) e);
}

pub renew_lease-ok :
    (env : Env) (s : Store) (run_id owner version now : ℕ) {r : RuntimeRun} {s' : Store}
    → renew_lease env s run_id owner version now ≡ ok (some r, s')
    → (run : RuntimeRun) × (Dict.get s.runs run_id ≡ some run)
      × (r ≡ record run { lease_expires_at = some (now + env.lease_duration) })
      × (s' ≡ record s { runs = Dict.put s.runs run_id r })
unfolding renew_lease require_run
renew_lease-ok env s run_id owner version now h = ground arith

renew_lease-none :
    (env : Env) (s : Store) (run_id owner version now : ℕ) {s' : Store}
    → renew_lease env s run_id owner version now ≡ ok (none, s')
    → s' ≡ s
unfolding renew_lease require_run
renew_lease-none env s run_id owner version now h = ground arith

pub renew_lease-Evolves :
    {m : Option RunStatus} (env : Env) (s : Store) (run_id owner version now : ℕ)
    (o : Option RuntimeRun) {s' : Store}
    → renew_lease env s run_id owner version now ≡ ok (o, s')
    → Evolves m s s'
renew_lease-Evolves env s run_id owner version now none h =
    rw (renew_lease-none env s run_id owner version now h) (Evolves-refl s)
renew_lease-Evolves env s run_id owner version now (some r) h =
    let (run, found, changed, final) = renew_lease-ok env s run_id owner version now h in
    rw final (
      put_run-Evolves s run_id run r found
        (subst (RunFacts _ run) (sym changed) (kept-RunFacts refl refl refl refl refl refl)))

pub reserve_model_turn-ok :
    (s : Store) (run_id owner version now : ℕ) {turns : ℕ} {s' : Store}
    → reserve_model_turn s run_id owner version now ≡ ok (turns, s')
    → (run : RuntimeRun) × (Dict.get s.runs run_id ≡ some run)
      × (run.remaining_model_turns ≡ some (suc turns))
      × (s' ≡ record s {
        runs = Dict.put s.runs run_id (record run { remaining_model_turns = some turns });
      })
unfolding reserve_model_turn require_run validate_fence
reserve_model_turn-ok s run_id owner version now h = ground arith

pub reserve_model_turn-Evolves :
    {m : Option RunStatus} (s : Store) (run_id owner version now : ℕ) {turns : ℕ} {s' : Store}
    → reserve_model_turn s run_id owner version now ≡ ok (turns, s')
    → Evolves m s s'
reserve_model_turn-Evolves s run_id owner version now {turns} h =
    let (run, found, _, final) = reserve_model_turn-ok s run_id owner version now h in
    rw final (
      put_run-Evolves s run_id run (record run { remaining_model_turns = some turns }) found
        (kept-RunFacts refl refl refl refl refl refl))
