-- ===== src/Store/Evolve.antt =====
-- How the runs, attempts and logs of a store may change from one instant to a later one: the
-- relation `Evolves`, of which the modules below treat one group of operations each.
pub mod Parts
pub mod Fenced
pub mod Start
pub mod Logged
pub mod Ended
pub mod Audited
use diagops.Base.{
  ℕ, suc, ◌+◌, ◌≤◌, Bool, true, false, Option, none, some, List, [], ◌∷◌, ◌++◌, ◌≡◌, ◌⊎◌, length,
}
use diagops.Base.Dict
use diagops.Domain.Status.{RunStatus, AttemptStatus, leads_to}
use diagops.Domain.Run.{RuntimeRun, RuntimeAttempt}
use diagops.Domain.Event.{RuntimeEvent}
use diagops.Store.State.{Store, log, ends_lease}

-- A run that has given its lease up has no owner.
abbrev pub IsIdle : RuntimeRun → Type 0
IsIdle run = ends_lease run.status ≡ true → run.lease_owner ≡ none

-- Which status a run may have next, by the status that it comes to.
abbrev pub may_become : RunStatus → RunStatus → Bool
may_become RunStatus.created RunStatus.running = true
may_become RunStatus.interrupted RunStatus.running = true
may_become RunStatus.running RunStatus.cancelling = true
may_become RunStatus.running RunStatus.interrupted = true
may_become RunStatus.cancelling RunStatus.interrupted = true
may_become RunStatus.running RunStatus.completed = true
may_become RunStatus.running RunStatus.failed = true
may_become RunStatus.created RunStatus.cancelled = true
may_become RunStatus.cancelling RunStatus.cancelled = true
may_become _ _ = false

-- Where a target is given, the status stays or becomes the target in one step; else it may have
-- changed any number of times.
abbrev pub StatusStep : Option RunStatus → RunStatus → RunStatus → Type 0
StatusStep none a b = leads_to a b ≡ true
StatusStep (some target) a b = (b ≡ a) ⊎ ((b ≡ target) × (may_become a target ≡ true))

pub record RunFacts (m : Option RunStatus) (r r' : RuntimeRun) : Type 0 where
  pub id : r'.id ≡ r.id
  pub investigation_id : r'.investigation_id ≡ r.investigation_id
  pub run_kind : r'.run_kind ≡ r.run_kind
  pub status : StatusStep m r.status r'.status
  pub lease_version : r.lease_version ≤ r'.lease_version
  pub idle : IsIdle r → IsIdle r'

-- No run appears or goes away.
abbrev pub RunStep : Option RunStatus → Option RuntimeRun → Option RuntimeRun → Type 0
RunStep m none none = Unit
RunStep m none (some r') = ⊥
RunStep m (some r) none = ⊥
RunStep m (some r) (some r') = RunFacts m r r'

pub record AttemptFacts (t t' : RuntimeAttempt) : Type 0 where
  pub run_id : t'.run_id ≡ t.run_id
  pub attempt_number : t'.attempt_number ≡ t.attempt_number
  pub status : (t.status ≡ AttemptStatus.running) ⊎ (t'.status ≡ t.status)

-- An attempt may be added, and none goes away.
abbrev pub AttemptStep : Option RuntimeAttempt → Option RuntimeAttempt → Type 0
AttemptStep none _ = Unit
AttemptStep (some t) none = ⊥
AttemptStep (some t) (some t') = AttemptFacts t t'

-- Events of the run, numbered from the one after `n`.
abbrev pub Numbered : ℕ → ℕ → List RuntimeEvent → Type 0
Numbered run_id n [] = Unit
Numbered run_id n (e ∷ es) = (e.sequence ≡ suc n) × (e.run_id ≡ run_id) × Numbered run_id (suc n) es

pub record LogStep (run_id : ℕ) (old new : List RuntimeEvent) : Type 0 where
  pub more : List RuntimeEvent
  pub appended : new ≡ old ++ more
  pub numbered : Numbered run_id (length old) more

pub record Evolves (m : Option RunStatus) (s s' : Store) : Type 0 where
  pub runs : (k : ℕ) → RunStep m (Dict.get s.runs k) (Dict.get s'.runs k)
  pub attempts : (k : ℕ) → AttemptStep (Dict.get s.attempts k) (Dict.get s'.attempts k)
  pub logs : (k : ℕ) → LogStep k (log s k) (log s' k)

-- One target is enough for all runs.
abbrev pub EvolvesOnce : Store → Store → Type 0
EvolvesOnce s s' = (target : RunStatus) × Evolves (some target) s s'

-- Every run is stored under its own id.
abbrev pub IsKeyed : Store → Type 0
IsKeyed s = (k : ℕ) (r : RuntimeRun) → Dict.get s.runs k ≡ some r → r.id ≡ k
