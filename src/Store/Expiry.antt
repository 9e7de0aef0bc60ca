-- ===== src/Store/Expiry.antt =====
-- `audit_expired_leases`: what is left of expired leases.
use mathlib.Core.Path.{subst}
use diagops.Base.{
  ℕ, Bool, true, false, Option, none, some, List, [], ◌∷◌, ◌++◌, ◌≡◌, ◌⊎◌, refl, sym, ◌∙◌, Outcome,
  Error, ok, err, arith, any, inl, inr, Bool-cases, Outcome-cases, Option-cases, ◌==◌,
}
use diagops.Base.Dict
use diagops.Base.Dict.{Dict, get-put, get-keys}
use diagops.Domain.Status.{RunStatus}
use diagops.Domain.Run.{RuntimeRun, RuntimeAttempt}
use diagops.Domain.Event.{RuntimeEvent}
use diagops.Store.State.{Env, Store, Step, transitioned, extend_log, publish}
use diagops.Store.Commits.{refreeze}
use diagops.Store.Audit.{
  is_expired, lost, mark_interrupted, interrupt_marked, log_interruptions, interrupt_run,
  audit_turn, audit_loop, audit_expired_leases,
}
use diagops.Store.Evolve.{IsKeyed}
use diagops.Store.Evolve.Parts.{Evolves-IsKeyed}
use diagops.Store.Evolve.Ended.{refreeze-SameCore}
use diagops.Store.Evolve.Audited.{mark_interrupted-ok, interrupt_run-Evolves}
use diagops.Store.Cancelling.{apply_transition-runs}

abbrev interrupted_run : RuntimeRun → ℕ → RuntimeRun
interrupted_run run done = transitioned (lost run) RunStatus.interrupted done

-- The run at a place, if there is one, holds a lease that had expired at `now`.
abbrev pub expired_at : ℕ → Option RuntimeRun → Bool
expired_at now none = false
expired_at now (some run) = is_expired now run

mark_interrupted-runs :
    (s : Store) (run : RuntimeRun) (now done : ℕ) {attempt : RuntimeAttempt} {s' : Store}
    → mark_interrupted s run now done ≡ ok (attempt, s')
    → s'.runs ≡ Dict.put s.runs run.id (interrupted_run run done)
mark_interrupted-runs s run now done h =
    let (_, _, moved) = mark_interrupted-ok s run now done h in
    apply_transition-runs _ (lost run) RunStatus.interrupted done moved

log_interruptions-runs :
    (env : Env) (run run' : RuntimeRun) (attempt : RuntimeAttempt) (s : Store) (o : Outcome Store)
    → refreeze env s run' ≡ o
    → (log_interruptions run attempt s o).1.runs ≡ s.runs
unfolding extend_log
log_interruptions-runs env run run' attempt s (err e) p = refl
log_interruptions-runs env run run' attempt s (ok s') p = (refreeze-SameCore env s run' p).runs

interrupt_marked-runs :
    (env : Env) (s : Store) (run : RuntimeRun) (now done : ℕ) (o : Outcome (RuntimeAttempt × Store))
    {es : List RuntimeEvent}
    → mark_interrupted s run now done ≡ o
    → (interrupt_marked env done s run o).0 ≡ ok es
    → (interrupt_marked env done s run o).1.runs ≡ Dict.put s.runs run.id (interrupted_run run done)
interrupt_marked-runs env s run now done (err e) p h = cc
interrupt_marked-runs env s run now done (ok (attempt, s')) p h =
    log_interruptions-runs env run (interrupted_run run done) attempt s' _ refl
    ∙ mark_interrupted-runs s run now done p

-- What the turn of one run leaves at every place, where it does not raise.
interrupt_run-clears :
    (env : Env) (s : Store) (run : RuntimeRun) (now done : ℕ) (j : ℕ) {es : List RuntimeEvent}
    → (interrupt_run env now done s run).0 ≡ ok es
    → (run.id ≡ j) ⊎ (expired_at now (Dict.get s.runs j) ≡ false)
    → expired_at now (Dict.get (interrupt_run env now done s run).1.runs j) ≡ false
unfolding interrupt_run transitioned
interrupt_run-clears env s run now done j h cleared =
    let runs = interrupt_marked-runs env s run now done _ refl h in
    let at_j = get-put s.runs run.id j (interrupted_run run done) in
    rw (runs, at_j)
      (elim (Bool-cases (run.id == j)) [
        | inl e ↦ rw e (ground arith)
        | inr e ↦ rw e (ground arith)
      ])

module _ (env : Env) (now done : ℕ) (j : ℕ) where
  -- The place `j` has had its turn, or its turn is still to come.
  abbrev Settles : List ℕ → Store → Type 0
  Settles ks s = (any (λ k. k == j) ks ≡ true) ⊎ (expired_at now (Dict.get s.runs j) ≡ false)

  first_or_later :
      (k : ℕ) (ks : List ℕ) (s : Store)
      → Settles (k ∷ ks) s
      → (any (λ i. i == j) ks ≡ true) ⊎ ((k ≡ j) ⊎ (expired_at now (Dict.get s.runs j) ≡ false))
  unfolding any
  first_or_later k ks s (inl h) = ground arith
  first_or_later k ks s (inr h) = inr (inr h)

  unexpired_here :
      (s : Store) (k : ℕ) (o : Option RuntimeRun)
      → Dict.get s.runs k ≡ o
      → expired_at now o ≡ false
      → (k ≡ j) ⊎ (expired_at now (Dict.get s.runs j) ≡ false)
      → expired_at now (Dict.get s.runs j) ≡ false
  unexpired_here s k o found quiet (inl here) =
      subst (λ i. expired_at now (Dict.get s.runs i) ≡ false) here (rw found quiet)
  unexpired_here s k o found quiet (inr h) = h

  module _ (s : Store) (run : RuntimeRun)
      (rest : List RuntimeRun → List RuntimeEvent → Store → Step (List RuntimeRun))
      (interrupted : List RuntimeRun) (events : List RuntimeEvent) where
    audit_turn-skip :
        is_expired now run ≡ false
        → audit_turn env now done s (some run) rest interrupted events ≡ rest interrupted events s
    unfolding audit_turn
    audit_turn-skip e = rw e refl

    audit_turn-err :
        (x : Error)
        → is_expired now run ≡ true
        → (interrupt_run env now done s run).0 ≡ err x
        → audit_turn env now done s (some run) rest interrupted events
          ≡ (err x, (interrupt_run env now done s run).1)
    unfolding audit_turn
    audit_turn-err x e p = rw (e, p) refl

    audit_turn-ok :
        (es : List RuntimeEvent)
        → is_expired now run ≡ true
        → (interrupt_run env now done s run).0 ≡ ok es
        → audit_turn env now done s (some run) rest interrupted events
          ≡ rest
              (interrupted ++ (interrupted_run run done ∷ []))
              (events ++ es)
              (interrupt_run env now done s run).1
    unfolding audit_turn
    audit_turn-ok es e p = rw (e, p) refl

  -- Where the step returns, the place `j` holds no expired lease.
  abbrev Clears : List RuntimeRun → Step (List RuntimeRun) → Type 0
  Clears ys z = z.0 ≡ ok ys → expired_at now (Dict.get z.1.runs j) ≡ false

  audit_turn-Clears :
      (k : ℕ) (ks : List ℕ) (s : Store) (o : Option RuntimeRun)
      (rest : List RuntimeRun → List RuntimeEvent → Store → Step (List RuntimeRun))
      (interrupted : List RuntimeRun) (events : List RuntimeEvent) {ys : List RuntimeRun}
      → IsKeyed s
      → Dict.get s.runs k ≡ o
      → ((xs : List RuntimeRun) (es : List RuntimeEvent) (t : Store)
          → IsKeyed t
          → Settles ks t
          → Clears ys (rest xs es t))
      → (any (λ i. i == j) ks ≡ true) ⊎ ((k ≡ j) ⊎ (expired_at now (Dict.get s.runs j) ≡ false))
      → Clears ys (audit_turn env now done s o rest interrupted events)
  unfolding audit_turn
  audit_turn-Clears k ks s none rest interrupted events keyed found later settles =
      later interrupted events s keyed
        (elim settles [ inl c ↦ inl c | inr c ↦ inr (unexpired_here s k none found refl c) ])
  audit_turn-Clears k ks s (some run) rest interrupted events {ys} keyed found later settles =
      let here = keyed k run found in
      let marked = interrupt_run-Evolves env s k run now done found here in
      let s' = (interrupt_run env now done s run).1 in
      elim (Bool-cases (is_expired now run)) [
        | inl e ↦ elim (Outcome-cases (interrupt_run env now done s run).0) [
          | inl (x, p) ↦
              subst (Clears ys) (sym (audit_turn-err s run rest interrupted events x e p)) (λ h. cc)
          | inr (es, p) ↦
              subst (Clears ys) (sym (audit_turn-ok s run rest interrupted events es e p)) (
                later _ _ s' (Evolves-IsKeyed marked keyed) (elim settles [
                  | inl c ↦ inl c
                  | inr (inl c) ↦ inr (interrupt_run-clears env s run now done j p (inl (here ∙ c)))
                  | inr (inr c) ↦ inr (interrupt_run-clears env s run now done j p (inr c))
                ]))
        ]
        | inr e ↦ subst (Clears ys) (sym (audit_turn-skip s run rest interrupted events e)) (
            later interrupted events s keyed (elim settles [
              | inl c ↦ inl c
              | inr c ↦ inr (unexpired_here s k (some run) found e c)
            ]))
      ]

  audit_loop-Clears :
      (ks : List ℕ) (interrupted : List RuntimeRun) (events : List RuntimeEvent) (s : Store)
      {ys : List RuntimeRun}
      → IsKeyed s
      → Settles ks s
      → Clears ys (audit_loop env now done ks interrupted events s)
  unfolding audit_loop publish any
  audit_loop-Clears [] interrupted events s keyed (inl c) = cc
  audit_loop-Clears [] interrupted events s keyed (inr c) = λ _. c
  audit_loop-Clears (k ∷ ks) interrupted events s keyed settles =
      audit_turn-Clears k ks s (Dict.get s.runs k) (audit_loop env now done ks) interrupted events
        keyed refl (λ xs es t. audit_loop-Clears ks xs es t) (first_or_later k ks s settles)

-- After an audit that returns, in a store that holds its runs under their ids, no run is running or
-- cancelling with a lease that had expired at the instant of the audit.
pub audit_expired_leases-clears :
    (env : Env) (s : Store) (now done : ℕ) (interrupted : List RuntimeRun) (j : ℕ)
    → IsKeyed s
    → (audit_expired_leases env s now done).0 ≡ ok interrupted
    → expired_at now (Dict.get (audit_expired_leases env s now done).1.runs j) ≡ false
unfolding audit_expired_leases
audit_expired_leases-clears env s now done interrupted j keyed =
    audit_loop-Clears env now done j (Dict.keys s.runs) [] [] s keyed
      (elim (Option-cases (Dict.get s.runs j)) [
        | inl e ↦ inr (rw e refl)
        | inr (r, e) ↦ inl (get-keys s.runs j r e)
      ])
