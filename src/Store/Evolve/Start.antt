-- ===== src/Store/Evolve/Start.antt =====
-- `acquire_lease_and_create_attempt`, where it returns and where it raises.
use mathlib.Core.Path.{subst}
use diagops.Base.{ℕ, some, ◌≡◌, refl, sym, Outcome, Error, ok, err, arith}
use diagops.Base.Dict
use diagops.Base.Dict.{put-put_back}
use diagops.Domain.Status.{RunStatus}
use diagops.Domain.Run.{RuntimeRun, RuntimeAttempt}
use diagops.Store.State.{Env, Store, require_run}
use diagops.Store.Leases.{
  acquire_lease, create_attempt, create_leased, start_attempt, lease_first, start_then,
  acquire_lease_and_create_attempt,
}
use diagops.Store.Evolve.{Evolves}
use diagops.Store.Evolve.Parts.{Evolves-trans}
use diagops.Store.Evolve.Fenced.{acquire_lease-ok, acquire_lease-Evolves, create_attempt-Evolves}

create_leased-ok :
    (env : Env) (s : Store) (attempt : RuntimeAttempt) (owner version now : ℕ)
    {created : RuntimeAttempt × Store}
    → create_leased env s attempt owner version now ≡ ok created
    → create_attempt s attempt owner version now ≡ ok created
create_leased-ok env s attempt owner version now h = ground arith

start_attempt-restores :
    (env : Env) (s : Store) (run_id : ℕ) (before leased : RuntimeRun) (attempt : RuntimeAttempt)
    (owner later : ℕ) (e : Error)
    → Dict.get s.runs run_id ≡ some before
    → let taken = record s { runs = Dict.put s.runs run_id leased } in
      (start_attempt env before taken run_id leased attempt owner later).0 ≡ err e
      → (start_attempt env before taken run_id leased attempt owner later).1 ≡ s
unfolding start_attempt
start_attempt-restores env s run_id before leased attempt owner later e found h =
    ground (arith, put-put_back s.runs run_id before leased)

start_attempt-ok :
    (env : Env) (s : Store) (run_id : ℕ) (before leased : RuntimeRun) (attempt : RuntimeAttempt)
    (owner later : ℕ) (r : RuntimeRun × RuntimeAttempt)
    → (start_attempt env before s run_id leased attempt owner later).0 ≡ ok r
    → (created : RuntimeAttempt × Store) × (create_attempt s attempt owner leased.lease_version
          later
        ≡ ok created)
      × ((start_attempt env before s run_id leased attempt owner later).1 ≡ created.1)
unfolding start_attempt
start_attempt-ok env s run_id before leased attempt owner later r h = ground arith

lease_first-ok :
    (env : Env) (s : Store) (run_id owner : ℕ) (expected : RunStatus) (now : ℕ)
    {before leased : RuntimeRun} {s1 : Store}
    → lease_first env s run_id owner expected now ≡ ok (before, leased, s1)
    → (Dict.get s.runs run_id ≡ some before)
      × (acquire_lease env s run_id owner expected now ≡ ok (some leased, s1))
unfolding lease_first require_run
lease_first-ok env s run_id owner expected now h = ground arith

-- The store that a lease leaves, in terms of the one before.
lease_first-store :
    (env : Env) (s : Store) (run_id owner : ℕ) (expected : RunStatus) (now : ℕ)
    {before leased : RuntimeRun} {s1 : Store}
    → lease_first env s run_id owner expected now ≡ ok (before, leased, s1)
    → s1 ≡ record s { runs = Dict.put s.runs run_id leased }
lease_first-store env s run_id owner expected now h =
    let (_, taken) = lease_first-ok env s run_id owner expected now h in
    let (run, _, _, leased, final) = acquire_lease-ok env s run_id owner expected now taken in
    rw leased final

start_then-err :
    (env : Env) (s : Store) (run_id : ℕ) (attempt : RuntimeAttempt) (owner : ℕ)
    (expected : RunStatus) (now later : ℕ) (o : Outcome (RuntimeRun × RuntimeRun × Store))
    (e : Error)
    → lease_first env s run_id owner expected now ≡ o
    → (start_then env s run_id attempt owner later o).0 ≡ err e
    → (start_then env s run_id attempt owner later o).1 ≡ s
start_then-err env s run_id attempt owner expected now later (err x) e p h = refl
start_then-err env s run_id attempt owner expected now later (ok (before, leased, s1)) e p h =
    let (found, _) = lease_first-ok env s run_id owner expected now p in
    let final = lease_first-store env s run_id owner expected now p in
    subst
      (λ t.
        (start_attempt env before t run_id leased attempt owner later).0 ≡ err e
        → (start_attempt env before t run_id leased attempt owner later).1 ≡ s)
      (sym final) (start_attempt-restores env s run_id before leased attempt owner later e found) h

start_then-ok :
    (env : Env) (s : Store) (run_id : ℕ) (attempt : RuntimeAttempt) (owner : ℕ)
    (expected : RunStatus) (now later : ℕ) (o : Outcome (RuntimeRun × RuntimeRun × Store))
    (r : RuntimeRun × RuntimeAttempt)
    → lease_first env s run_id owner expected now ≡ o
    → (start_then env s run_id attempt owner later o).0 ≡ ok r
    → Evolves (some RunStatus.running) s (start_then env s run_id attempt owner later o).1
start_then-ok env s run_id attempt owner expected now later (err x) r p h = cc
start_then-ok env s run_id attempt owner expected now later (ok (before, leased, s1)) r p h =
    let (_, taken) = lease_first-ok env s run_id owner expected now p in
    let (created, made, final) =
      start_attempt-ok env s1 run_id before leased attempt owner later r h in
    rw final (
      Evolves-trans (acquire_lease-Evolves env s run_id owner expected now taken)
        (create_attempt-Evolves s1 attempt owner leased.lease_version later made))

module _ (env : Env) (s : Store) (run_id : ℕ) (attempt : RuntimeAttempt) (owner : ℕ)
    (expected : RunStatus) (now later : ℕ) where
  -- A call that raises, its second step included, leaves the store exactly as it found it.
  pub acquire_lease_and_create_attempt-err :
      (e : Error)
      → (acquire_lease_and_create_attempt env s run_id attempt owner expected now later).0 ≡ err e
      → (acquire_lease_and_create_attempt env s run_id attempt owner expected now later).1 ≡ s
  unfolding acquire_lease_and_create_attempt
  acquire_lease_and_create_attempt-err e h =
      start_then-err env s run_id attempt owner expected now later
        (lease_first env s run_id owner expected now) e refl h

  pub acquire_lease_and_create_attempt-Evolves :
      (r : RuntimeRun × RuntimeAttempt)
      → (acquire_lease_and_create_attempt env s run_id attempt owner expected now later).0 ≡ ok r
      → Evolves
          (some RunStatus.running)
          s
          (acquire_lease_and_create_attempt env s run_id attempt owner expected now later).1
  unfolding acquire_lease_and_create_attempt
  acquire_lease_and_create_attempt-Evolves r h =
      start_then-ok env s run_id attempt owner expected now later
        (lease_first env s run_id owner expected now) r refl h
