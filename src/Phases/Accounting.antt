-- ===== src/Phases/Accounting.antt =====
-- The sums behind `durable_remaining_token_budget` and `durable_tool_call_count`.
use diagops.Base.{
  ◌⊎◌, ℕ, suc, ◌+◌, ◌-◌, ◌≤◌, Bool, true, false, some, List, [], ◌∷◌, ◌++◌, ◌≡◌, refl, sym, ap, map,
  keep, any, length, arith, ◌&&◌, not, ◌||◌, ◌==◌, if◌then◌else◌, Bool-cases, inl, inr,
}
use diagops.Domain.Names.{EventType}
use diagops.Domain.Event.{RuntimeEvent, ReservationStatus}
use diagops.Domain.ToolCall.{ToolCallRecord}
use diagops.Phases.Budget.{
  durable_token_usage, durable_remaining_token_budget, is_rejection, distinct, consumed_calls,
  call_key, is_charged, is_counted, event_tokens,
}

usage-append :
    (old new : List RuntimeEvent) (run_id : ℕ)
    → durable_token_usage (old ++ new) run_id
      ≡ durable_token_usage old run_id + durable_token_usage new run_id
unfolding durable_token_usage
usage-append [] new run_id = omega arith
usage-append (e ∷ old) new run_id = grind (arith, usage-append old new run_id)

any-append : {A : Type 0} (p : A → Bool) (xs ys : List A) → any p (xs ++ ys) ≡ any p xs || any p ys
unfolding any
any-append p [] ys = refl
any-append p (x ∷ xs) ys = ground (arith, any-append p xs ys)

-- A model call of the run that has completed, and reports its usage.
abbrev pub completed_call : ℕ → RuntimeEvent → (input output : ℕ) → RuntimeEvent
completed_call run_id event input output = record event {
  run_id = run_id;
  schema_version = 1;
  event_type = EventType.model_completed;
  safe_payload = record event.safe_payload {
    reservation_status = some ReservationStatus.completed;
    usage_known = some true;
    input_tokens = some input;
    output_tokens = some output;
  };
}

-- A model call of the run that has failed with that status; its usage is not known.
abbrev pub failed_call : ℕ → RuntimeEvent → ReservationStatus → ℕ → RuntimeEvent
failed_call run_id event status accounted = record event {
  run_id = run_id;
  schema_version = 1;
  event_type = EventType.model_failed;
  safe_payload = record event.safe_payload {
    reservation_status = some status;
    usage_known = some false;
    accounted_tokens = some accounted;
  };
}

one_more :
    (old : List RuntimeEvent) (run_id budget : ℕ) (e : RuntimeEvent)
    → is_rejection run_id e ≡ false
    → durable_remaining_token_budget (old ++ (e ∷ [])) run_id budget
      ≡ durable_remaining_token_budget old run_id budget
        - (if is_counted run_id e then event_tokens e else 0)
unfolding durable_remaining_token_budget durable_token_usage any
one_more old run_id budget e h =
    let both = usage-append old (e ∷ []) run_id in
    let rejected = any-append (is_rejection run_id) old (e ∷ []) in ground arith

one_rejected :
    (old : List RuntimeEvent) (run_id budget : ℕ) (e : RuntimeEvent)
    → is_rejection run_id e ≡ true
    → durable_remaining_token_budget (old ++ (e ∷ [])) run_id budget ≡ 0
unfolding durable_remaining_token_budget any
one_rejected old run_id budget e h =
    let rejected = any-append (is_rejection run_id) old (e ∷ []) in ground arith

other_run :
    (old : List RuntimeEvent) (run_id budget : ℕ) (e : RuntimeEvent)
    → (e.run_id ≡ run_id)
      ⊎ (durable_remaining_token_budget (old ++ (e ∷ [])) run_id budget
          ≡ durable_remaining_token_budget old run_id budget)
other_run old run_id budget e = elim (Bool-cases (e.run_id == run_id)) [
  | inl here ↦ inl (ground arith)
  | inr other ↦
      let same_rest = one_more old run_id budget e (ground arith) in inr (ground (arith, same_rest))
]

module _ (old new : List RuntimeEvent) (run_id budget : ℕ) (event : RuntimeEvent)
    (input output accounted : ℕ) where
  -- What remains of a token budget never exceeds it, and appending events never raises it. A
  -- completed model call of the run that reports its usage lowers what remains by its input and
  -- output tokens, and a failed one of unknown usage by the tokens that it accounts for, both to 0 at
  -- least. A failed one that is retried lowers it by nothing, and after a rejected one it is 0. An
  -- event of another run lowers it by nothing.
  pub remaining-antitone :
      (durable_remaining_token_budget old run_id budget ≤ budget)
      × (durable_remaining_token_budget (old ++ new) run_id budget
          ≤ durable_remaining_token_budget old run_id budget)
      × (durable_remaining_token_budget
            (old ++ (completed_call run_id event input output ∷ []))
            run_id
            budget
          ≡ durable_remaining_token_budget old run_id budget - (input + output))
      × (durable_remaining_token_budget
            (old ++ (failed_call run_id event ReservationStatus.unknown accounted ∷ []))
            run_id
            budget
          ≡ durable_remaining_token_budget old run_id budget - accounted)
      × (durable_remaining_token_budget
            (old ++ (failed_call run_id event ReservationStatus.retrying accounted ∷ []))
            run_id
            budget
          ≡ durable_remaining_token_budget old run_id budget)
      × (durable_remaining_token_budget
            (old ++ (failed_call run_id event ReservationStatus.rejected accounted ∷ []))
            run_id
            budget
          ≡ 0)
      × ((event.run_id ≡ run_id)
          ⊎ (durable_remaining_token_budget (old ++ (event ∷ [])) run_id budget
              ≡ durable_remaining_token_budget old run_id budget))
  unfolding durable_remaining_token_budget
  remaining-antitone =
      let both = usage-append old new run_id in
      let rejected = any-append (is_rejection run_id) old new in
      let completed = one_more old run_id budget (completed_call run_id event input output) in
      let failed =
        one_more old run_id budget (failed_call run_id event ReservationStatus.unknown accounted) in
      let retried =
        one_more old run_id budget
          (failed_call run_id event ReservationStatus.retrying accounted) in
      (
        ground arith,
        ground arith,
        ground (arith, completed),
        ground (arith, failed),
        ground (arith, retried),
        one_rejected old run_id budget
            (failed_call run_id event ReservationStatus.rejected accounted) (ground arith),
        other_run old run_id budget event,
      )

abbrev mem : ℕ → List ℕ → Bool
mem a = any (λ b. b == a)

mem-distinct_snoc :
    (x : ℕ) (xs : List ℕ) (a : ℕ)
    → mem x (distinct (xs ++ (a ∷ []))) ≡ mem x (distinct xs) || (a == x)
unfolding distinct any
mem-distinct_snoc x [] a = ground arith
mem-distinct_snoc x (y ∷ xs) a = ground (arith, mem-distinct_snoc x xs a, mem-distinct_snoc y xs a)

mem-eq : (a y : ℕ) (xs : List ℕ) → (a == y) ≡ true → mem y xs ≡ mem a xs
mem-eq a y xs h = let e : a ≡ y = ground arith in ap (λ k. mem k xs) (sym e)

-- A key that is already among the different ones adds none, and any other adds one.
length-distinct_snoc :
    (xs : List ℕ) (a : ℕ)
    → length (distinct (xs ++ (a ∷ [])))
      ≡ (if mem a (distinct xs) then length (distinct xs) else suc (length (distinct xs)))
unfolding distinct any
length-distinct_snoc [] a = ground arith
length-distinct_snoc (y ∷ xs) a =
    let there = mem-distinct_snoc y xs a in
    let alike = mem-eq a y (distinct xs) in ground (arith, length-distinct_snoc xs a)

keep-snoc :
    {A : Type 0} (p : A → Bool) (xs : List A) (x : A)
    → keep p (xs ++ (x ∷ [])) ≡ (if p x then keep p xs ++ (x ∷ []) else keep p xs)
unfolding keep
keep-snoc p [] x = refl
keep-snoc p (y ∷ xs) x = ground (arith, keep-snoc p xs x)

map-snoc :
    {A B : Type 0} (f : A → B) (xs : List A) (x : A)
    → map f (xs ++ (x ∷ [])) ≡ map f xs ++ (f x ∷ [])
map-snoc f [] x = refl
map-snoc f (y ∷ xs) x = ap (λ l. f y ∷ l) (map-snoc f xs x)

-- A call stored after the others counts once, unless its key has been charged before.
pub length-consumed_snoc :
    (run_id : ℕ) (calls : List ToolCallRecord) (call : ToolCallRecord)
    → length (consumed_calls run_id (calls ++ (call ∷ []))) ≡ (
        if is_charged run_id call && not (mem (call_key call) (consumed_calls run_id calls))
        then suc (length (consumed_calls run_id calls))
        else length (consumed_calls run_id calls))
unfolding consumed_calls
length-consumed_snoc run_id calls call =
    let kept = keep-snoc (is_charged run_id) calls call in
    let keys = map-snoc call_key (keep (is_charged run_id) calls) call in
    let counted =
      length-distinct_snoc (map call_key (keep (is_charged run_id) calls)) (call_key call) in
    elim (Bool-cases (is_charged run_id call)) [
      | inl e ↦ rw (kept, e, keys, counted) (ground arith)
      | inr e ↦ rw (kept, e) refl
    ]
