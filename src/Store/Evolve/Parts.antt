-- ===== src/Store/Evolve/Parts.antt =====
-- `Evolves` as a preorder, and the writes to one dictionary.
use mathlib.Core.List.{append-nil, append_assoc}
use mathlib.Core.Option
use mathlib.Core.Path.{subst}
use diagops.Base.{
  ℕ, suc, ◌+◌, Option, none, some, List, [], ◌∷◌, ◌++◌, ◌≡◌, true, refl, sym, ap, ◌∙◌, inl, inr,
  length, length-append, arith, ◌==◌, Bool-cases,
}
use diagops.Base.Dict
use diagops.Base.Dict.{Dict, get-put, get-update_values}
use diagops.Domain.Status.{RunStatus, AttemptStatus, allowed_transitions}
use diagops.Domain.Status.Reach.{leads_to_refl, leads_to_trans}
use diagops.Domain.Run.{RuntimeRun, RuntimeAttempt}
use diagops.Domain.Event.{RuntimeEvent}
use diagops.Store.State.{Store, log, extend_log, end_attempt, end_attempts}
use diagops.Store.Evolve.{
  StatusStep, RunFacts, RunStep, AttemptFacts, AttemptStep, Numbered, LogStep, Evolves, IsKeyed,
}

pub StatusStep-refl : (m : Option RunStatus) (a : RunStatus) → StatusStep m a a
StatusStep-refl none a = leads_to_refl a
StatusStep-refl (some target) a = inl refl

-- No status may become itself, so that two steps to one target are one.
StatusStep-trans :
    (m : Option RunStatus) (a b c : RunStatus)
    → StatusStep m a b
    → StatusStep m b c
    → StatusStep m a c
StatusStep-trans none a b c f g = leads_to_trans a b c f g
StatusStep-trans (some target) a b c f g = ground arith

StatusStep-any : (target a b : RunStatus) → StatusStep (some target) a b → StatusStep none a b
StatusStep-any target a b h = ground arith

pub StatusStep-of_allowed :
    (a target : RunStatus) → allowed_transitions a target ≡ true → StatusStep (some target) a target
StatusStep-of_allowed a target h = inr (refl, ground arith)

pub RunFacts-refl : {m : Option RunStatus} (r : RuntimeRun) → RunFacts m r r
RunFacts-refl {m} r = record {
  id = refl;
  investigation_id = refl;
  run_kind = refl;
  status = StatusStep-refl m r.status;
  lease_version = omega arith;
  idle = λ h. h;
}

pub RunFacts-trans :
    {m : Option RunStatus} {a b c : RuntimeRun} → RunFacts m a b → RunFacts m b c → RunFacts m a c
RunFacts-trans {m} {a} {b} {c} f g = record {
  id = g.id ∙ f.id;
  investigation_id = g.investigation_id ∙ f.investigation_id;
  run_kind = g.run_kind ∙ f.run_kind;
  status = StatusStep-trans m a.status b.status c.status f.status g.status;
  lease_version = omega arith;
  idle = λ h. g.idle (f.idle h);
}

pub RunStep-refl : (m : Option RunStatus) (o : Option RuntimeRun) → RunStep m o o
RunStep-refl m none = tt
RunStep-refl m (some r) = RunFacts-refl r

pub RunStep-trans :
    (m : Option RunStatus) (a b c : Option RuntimeRun)
    → RunStep m a b
    → RunStep m b c
    → RunStep m a c
RunStep-trans m none none c f g = g
RunStep-trans m none (some r) c f g = absurd f
RunStep-trans m (some r) none c f g = absurd f
RunStep-trans m (some r) (some r') none f g = g
RunStep-trans m (some r) (some r') (some r'') f g = RunFacts-trans f g

pub AttemptFacts-refl : (t : RuntimeAttempt) → AttemptFacts t t
AttemptFacts-refl t = record { run_id = refl; attempt_number = refl; status = inr refl }

AttemptFacts-trans :
    {a b c : RuntimeAttempt} → AttemptFacts a b → AttemptFacts b c → AttemptFacts a c
AttemptFacts-trans f g = ground arith

pub AttemptStep-refl : (o : Option RuntimeAttempt) → AttemptStep o o
AttemptStep-refl none = tt
AttemptStep-refl (some t) = AttemptFacts-refl t

pub AttemptStep-trans :
    (a b c : Option RuntimeAttempt) → AttemptStep a b → AttemptStep b c → AttemptStep a c
AttemptStep-trans none b c f g = tt
AttemptStep-trans (some t) none c f g = absurd f
AttemptStep-trans (some t) (some t') none f g = g
AttemptStep-trans (some t) (some t') (some t'') f g = AttemptFacts-trans f g

pub LogStep-refl : (k : ℕ) (es : List RuntimeEvent) → LogStep k es es
LogStep-refl k es = record { more = []; appended = sym (append-nil es); numbered = tt }

pub Numbered-append :
    (k n : ℕ) (xs ys : List RuntimeEvent)
    → Numbered k n xs
    → Numbered k (n + length xs) ys
    → Numbered k n (xs ++ ys)
Numbered-append k n [] ys h g = let e : n + 0 ≡ n = omega arith in rw e at g
Numbered-append k n (x ∷ xs) ys h g =
    let e : n + suc (length xs) ≡ suc n + length xs = omega arith in
    (h.0, h.1, Numbered-append k (suc n) xs ys h.2 (rw e at g))

pub LogStep-trans :
    {k : ℕ} {a b c : List RuntimeEvent} → LogStep k a b → LogStep k b c → LogStep k a c
LogStep-trans {k} {a} {b} {c} f g = record {
  more = f.more ++ g.more;
  appended = rw (g.appended, f.appended) (append_assoc a f.more g.more);
  numbered =
      Numbered-append k (length a) f.more g.more f.numbered (
        subst (λ n. Numbered k n g.more) (ap length f.appended ∙ length-append a f.more)
          g.numbered);
}

pub Evolves-refl : {m : Option RunStatus} (s : Store) → Evolves m s s
Evolves-refl s = record {
  runs = λ k. RunStep-refl _ (Dict.get s.runs k);
  attempts = λ k. AttemptStep-refl (Dict.get s.attempts k);
  logs = λ k. LogStep-refl k (log s k);
}

pub Evolves-trans :
    {m : Option RunStatus} {a b c : Store} → Evolves m a b → Evolves m b c → Evolves m a c
Evolves-trans {m} {a} {b} {c} f g = record {
  runs = λ k.
      RunStep-trans _ (Dict.get a.runs k) (Dict.get b.runs k) (Dict.get c.runs k) (f.runs k)
        (g.runs k);
  attempts = λ k.
      AttemptStep-trans (Dict.get a.attempts k) (Dict.get b.attempts k) (Dict.get c.attempts k)
        (f.attempts k) (g.attempts k);
  logs = λ k. LogStep-trans (f.logs k) (g.logs k);
}

-- A run is written back, changed.
pub put-RunStep :
    {m : Option RunStatus} (d : Dict RuntimeRun) (k : ℕ) (r r' : RuntimeRun)
    → Dict.get d k ≡ some r
    → RunFacts m r r'
    → (j : ℕ) → RunStep m (Dict.get d j) (Dict.get (Dict.put d k r') j)
put-RunStep d k r r' found facts j = elim (Bool-cases (k == j)) [
  | inl e ↦
      let here : k ≡ j = ground arith in
      let at_j : Dict.get d j ≡ some r = rw here at found in rw get-put (rw (e, at_j) facts)
  | inr e ↦ rw get-put (rw e (RunStep-refl _ (Dict.get d j)))
]

-- An attempt is added, or written back changed.
pub put-AttemptStep :
    (d : Dict RuntimeAttempt) (k : ℕ) (t' : RuntimeAttempt)
    → AttemptStep (Dict.get d k) (some t')
    → (j : ℕ) → AttemptStep (Dict.get d j) (Dict.get (Dict.put d k t') j)
put-AttemptStep d k t' step j = elim (Bool-cases (k == j)) [
  | inl e ↦ let here : k ≡ j = ground arith in rw get-put (rw e (rw here at step))
  | inr e ↦ rw get-put (rw e (AttemptStep-refl (Dict.get d j)))
]

end_attempt-AttemptStep :
    (k : ℕ) (target : AttemptStatus) (now : ℕ) (o : Option RuntimeAttempt)
    → AttemptStep o (Option.map (end_attempt k target now) o)
unfolding end_attempt
end_attempt-AttemptStep k target now none = tt
end_attempt-AttemptStep k target now (some t) = ground arith

pub end_attempts-AttemptStep :
    (k : ℕ) (target : Option AttemptStatus) (now : ℕ) (d : Dict RuntimeAttempt) (j : ℕ)
    → AttemptStep (Dict.get d j) (Dict.get (end_attempts k target now d) j)
unfolding end_attempts
end_attempts-AttemptStep k none now d j = AttemptStep-refl (Dict.get d j)
end_attempts-AttemptStep k (some target) now d j =
    rw get-update_values (end_attempt-AttemptStep k target now (Dict.get d j))

-- Events appended to the log of one run.
pub extend_log-LogStep :
    (s : Store) (k : ℕ) (es : List RuntimeEvent)
    → Numbered k (length (log s k)) es
    → (j : ℕ) → LogStep j (log s j) (log (extend_log s k es) j)
unfolding log extend_log
extend_log-LogStep s k es numbered j = elim (Bool-cases (k == j)) [
  | inl e ↦
      let here : k ≡ j = ground arith in
      rw get-put (
        rw e (
          subst (λ i. LogStep i (log s i) (log s k ++ es)) here
            (record { more = es; appended = refl; numbered = numbered })))
  | inr e ↦ rw get-put (rw e (LogStep-refl j _))
]

-- A run found afterwards was there before.
pub RunStep-source :
    {m : Option RunStatus} (o : Option RuntimeRun) {r' : RuntimeRun}
    → RunStep m o (some r')
    → (r : RuntimeRun) × (o ≡ some r) × RunFacts m r r'
RunStep-source none f = absurd f
RunStep-source (some r) f = (r, refl, f)

pub Evolves-source :
    {m : Option RunStatus} {s s' : Store} (k : ℕ) {r' : RuntimeRun}
    → Evolves m s s'
    → Dict.get s'.runs k ≡ some r'
    → (r : RuntimeRun) × (Dict.get s.runs k ≡ some r) × RunFacts m r r'
Evolves-source {m} {s} {s'} k e found = RunStep-source (Dict.get s.runs k) (rw found at (e.runs k))

pub Evolves-IsKeyed :
    {m : Option RunStatus} {s s' : Store} → Evolves m s s' → IsKeyed s → IsKeyed s'
Evolves-IsKeyed e keyed k r' found =
    let (r, before, facts) = Evolves-source k e found in facts.id ∙ keyed k r before

RunStep-any :
    (target : RunStatus) (o p : Option RuntimeRun) → RunStep (some target) o p → RunStep none o p
RunStep-any target none none f = f
RunStep-any target none (some r) f = absurd f
RunStep-any target (some r) none f = absurd f
RunStep-any target (some r) (some r') f = record {
  id = f.id;
  investigation_id = f.investigation_id;
  run_kind = f.run_kind;
  status = StatusStep-any target r.status r'.status f.status;
  lease_version = f.lease_version;
  idle = f.idle;
}

-- What happens in one step happens in any number.
pub Evolves-any :
    {target : RunStatus} {s s' : Store} → Evolves (some target) s s' → Evolves none s s'
Evolves-any {s = s} {s' = s'} e = record {
  runs = λ k. RunStep-any _ (Dict.get s.runs k) (Dict.get s'.runs k) (e.runs k);
  attempts = e.attempts;
  logs = e.logs;
}
