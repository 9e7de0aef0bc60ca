-- ===== src/Store/History.antt =====
-- Any sequence of calls of the store, whether they return or raise.
use diagops.Base.{
  ℕ, Option, none, List, [], ◌∷◌, ◌≡◌, refl, Outcome, ok, err, Outcome-cases, inl, inr,
}
use diagops.Domain.Status.{RunStatus, AttemptStatus}
use diagops.Domain.Run.{RuntimeAttempt}
use diagops.Store.State.{Env, Store}
use diagops.Store.Runs.{transition_run, request_cancel}
use diagops.Store.Leases.{
  acquire_lease_and_create_attempt, transition_attempt, renew_lease, reserve_model_turn,
}
use diagops.Store.Commits.{
  RuntimeEventCommand, append_event_command, ToolCommit, commit_tool, append_recovery_rejection,
}
use diagops.Store.Terminal.{RuntimeTerminalCommit, commit_terminal}
use diagops.Store.PhaseCommits.{PhaseCommit, commit_phase}
use diagops.Store.Evolve.{Evolves, EvolvesOnce, IsKeyed}
use diagops.Store.Evolve.Parts.{Evolves-IsKeyed, Evolves-refl, Evolves-trans, Evolves-any}
use diagops.Store.Evolve.Fenced.{
  transition_run-Evolves, transition_attempt-Evolves, renew_lease-Evolves,
  reserve_model_turn-Evolves,
}
use diagops.Store.Evolve.Start.{
  acquire_lease_and_create_attempt-err, acquire_lease_and_create_attempt-Evolves,
}
use diagops.Store.Evolve.Logged.{
  append_event_command-Evolves, commit_tool-Evolves, commit_phase-Evolves,
}
use diagops.Store.Audit.{audit_expired_leases}
use diagops.Store.Evolve.Audited.{audit_expired_leases-Evolves}
use diagops.Store.Evolve.Ended.{
  commit_terminal-Evolves, request_cancel-Evolves, append_recovery_rejection-Evolves,
}
use diagops.Store.Rollback.{commit_phase-err-Evolves}

-- A call on runs that exist, with the readings of the clock that it makes.
pub data Call : Type 0 where
  transitioning : ℕ → RunStatus → RunStatus → Option ℕ → Option ℕ → (now done : ℕ) → Call
  starting : ℕ → RuntimeAttempt → ℕ → RunStatus → (now later : ℕ) → Call
  settling : ℕ → AttemptStatus → AttemptStatus → ℕ → ℕ → (now done : ℕ) → Call
  renewing reserving : (run_id owner version now : ℕ) → Call
  appending : RuntimeEventCommand → ℕ → Call
  ending : RuntimeTerminalCommit → (now done : ℕ) → Call
  committing_tool : ToolCommit → ℕ → Call
  committing_phase : PhaseCommit → ℕ → Call
  cancelling : (run_id now : ℕ) → Call
  auditing : (now done : ℕ) → Call
  rejecting : (run_id attempt_id : ℕ) → Option ℕ → Call

-- A call that raises before it writes leaves its store.
abbrev pub store_after : {A : Type 0} → Store → Outcome (A × Store) → Store
store_after s (ok (a, s')) = s'
store_after s (err e) = s

-- The store after one call.
unfoldable pub perform : Env → Store → Call → Store
perform env s (Call.transitioning k expected target owner version now done) =
    store_after s (transition_run s k expected target owner version now done)
perform env s (Call.starting k attempt owner expected now later) =
    (acquire_lease_and_create_attempt env s k attempt owner expected now later).1
perform env s (Call.settling k expected target owner version now done) =
    store_after s (transition_attempt s k expected target owner version now done)
perform env s (Call.renewing k owner version now) =
    store_after s (renew_lease env s k owner version now)
perform env s (Call.reserving k owner version now) =
    store_after s (reserve_model_turn s k owner version now)
perform env s (Call.appending command now) = store_after s (append_event_command env s command now)
perform env s (Call.ending commit now done) = store_after s (commit_terminal env s commit now done)
perform env s (Call.committing_tool commit now) = (commit_tool env s commit now).1
perform env s (Call.committing_phase commit now) = (commit_phase env s commit now).1
perform env s (Call.cancelling k now) = store_after s (request_cancel env s k now)
perform env s (Call.auditing now done) = (audit_expired_leases env s now done).1
perform env s (Call.rejecting k attempt_id checkpoint_id) =
    (append_recovery_rejection env s k attempt_id checkpoint_id).1

unfoldable pub perform_all : Env → Store → List Call → Store
unfolding perform
perform_all env s [] = s
perform_all env s (call ∷ calls) = perform_all env (perform env s call) calls

store_after-EvolvesOnce :
    {A : Type 0} (s : Store) (o p : Outcome (A × Store))
    → o ≡ p
    → ((a : A) (s' : Store) → o ≡ ok (a, s') → EvolvesOnce s s')
    → EvolvesOnce s (store_after s p)
store_after-EvolvesOnce s o (ok (a, s')) e h = h a s' e
store_after-EvolvesOnce s o (err x) e h = (RunStatus.running, Evolves-refl s)

pub perform-EvolvesOnce :
    (env : Env) (s : Store) (call : Call) → IsKeyed s → EvolvesOnce s (perform env s call)
unfolding perform
perform-EvolvesOnce env s (Call.transitioning k expected target owner version now done) keyed =
    store_after-EvolvesOnce s _ _ refl (λ a s' h.
      (target, transition_run-Evolves s k expected target owner version now done keyed h))
perform-EvolvesOnce env s (Call.starting k attempt owner expected now later) keyed =
    elim (Outcome-cases
      (acquire_lease_and_create_attempt env s k attempt owner expected now later).0) [
        | inr (r, h) ↦ (
          RunStatus.running,
          acquire_lease_and_create_attempt-Evolves env s k attempt owner expected now later r h,
        )
        | inl (e, h) ↦
            rw (acquire_lease_and_create_attempt-err env s k attempt owner expected now later e h)
              (RunStatus.running, Evolves-refl s)
      ]
perform-EvolvesOnce env s (Call.settling k expected target owner version now done) keyed =
    store_after-EvolvesOnce s _ _ refl (λ a s' h.
      (RunStatus.running, transition_attempt-Evolves s k expected target owner version now done h))
perform-EvolvesOnce env s (Call.renewing k owner version now) keyed =
    store_after-EvolvesOnce s _ _ refl
      (λ o s' h. (RunStatus.running, renew_lease-Evolves env s k owner version now o h))
perform-EvolvesOnce env s (Call.reserving k owner version now) keyed =
    store_after-EvolvesOnce s _ _ refl
      (λ a s' h. (RunStatus.running, reserve_model_turn-Evolves s k owner version now h))
perform-EvolvesOnce env s (Call.appending command now) keyed =
    store_after-EvolvesOnce s _ _ refl
      (λ a s' h. (RunStatus.running, append_event_command-Evolves env s command now h))
perform-EvolvesOnce env s (Call.ending commit now done) keyed =
    store_after-EvolvesOnce s _ _ refl
      (λ a s' h. (commit.target_run_status, commit_terminal-Evolves env s commit now done keyed h))
perform-EvolvesOnce env s (Call.committing_tool commit now) keyed =
    (RunStatus.running, commit_tool-Evolves env s commit now)
perform-EvolvesOnce env s (Call.committing_phase commit now) keyed =
    elim (Outcome-cases (commit_phase env s commit now).0) [
      | inr (c, h) ↦ (RunStatus.running, commit_phase-Evolves env s commit now keyed h)
      | inl (e, h) ↦ (RunStatus.running, commit_phase-err-Evolves env s commit now keyed h)
    ]
perform-EvolvesOnce env s (Call.cancelling k now) keyed =
    store_after-EvolvesOnce s _ _ refl (λ a s' h. request_cancel-Evolves env s k now keyed h)
perform-EvolvesOnce env s (Call.auditing now done) keyed =
    (RunStatus.interrupted, audit_expired_leases-Evolves env now done s keyed)
perform-EvolvesOnce env s (Call.rejecting k attempt_id checkpoint_id) keyed =
    (RunStatus.running, append_recovery_rejection-Evolves env s k attempt_id checkpoint_id)

pub Evolves-perform_all :
    (env : Env) (calls : List Call) (s : Store)
    → IsKeyed s
    → Evolves none s (perform_all env s calls)
unfolding perform_all
Evolves-perform_all env [] s keyed = Evolves-refl s
Evolves-perform_all env (call ∷ calls) s keyed =
    let (_, first) = perform-EvolvesOnce env s call keyed in
    Evolves-trans (Evolves-any first)
      (Evolves-perform_all env calls (perform env s call) (Evolves-IsKeyed first keyed))

abbrev pub EachEvolves : Env → Store → List Call → Type 0
EachEvolves env s [] = Unit
EachEvolves env s (call ∷ calls) =
    EvolvesOnce s (perform env s call) × EachEvolves env (perform env s call) calls

each-EachEvolves : (env : Env) (calls : List Call) (s : Store) → IsKeyed s → EachEvolves env s calls
each-EachEvolves env [] s keyed = tt
each-EachEvolves env (call ∷ calls) s keyed =
    let once = perform-EvolvesOnce env s call keyed in
    (once, each-EachEvolves env calls (perform env s call) (Evolves-IsKeyed once.1 keyed))

-- Whatever calls are made of a store that holds its runs under their ids, and whether they return
-- or raise: each single call leaves the status of every run as it was, or moves it by one step of
-- `may_become`, to one target for all runs that it moves. Over each call, and from the first store
-- to the last: no run appears or goes; each keeps its id, investigation and kind, its lease version
-- does not fall, and it has no owner where it has given up its lease if it had none so before; no
-- attempt goes, and one that had settled keeps its status; each log starts with what it was, and its
-- new events are of that run and numbered on without a gap.
pub perform_all-Evolves :
    (env : Env) (calls : List Call) (s : Store)
    → IsKeyed s
    → EachEvolves env s calls × Evolves none s (perform_all env s calls)
perform_all-Evolves env calls s keyed =
    (each-EachEvolves env calls s keyed, Evolves-perform_all env calls s keyed)
