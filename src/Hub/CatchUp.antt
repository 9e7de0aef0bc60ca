-- ===== src/Hub/CatchUp.antt =====
-- What a reader of `stream` is given, against the log of the run.
use mathlib.Core.Path.{subst}
use diagops.Base.{
  ℕ, ◌+◌, List, [], ◌∷◌, ◌++◌, ◌≡◌, refl, sym, ap, ◌∙◌, ◌||◌, ◌==◌, ltb, length, length-append,
  take, ok, arith, Outcome-cases, branch-keeps, inl, inr,
}
use diagops.Domain.Event.{RuntimeEvent}
use diagops.Store.State.{Store, log}
use diagops.Store.Runs.{list_events}
use diagops.Store.Evolve.{Numbered}
use diagops.Store.Paging.{drop, keep-drop, list_events-ok}
use diagops.Hub.Stream.{sorted, yield_from, CatchUp, catch_up}
use diagops.Hub.Slices.{
  Starts, Numbered-prefix, Numbered-take, Numbered-drop, sorted-Numbered, yield_from-Numbered,
  page-Starts, Starts-append,
}

-- The queried store knows a part of the log that the last store has.
abbrev pub IsEarlier : ℕ → Store → List RuntimeEvent → Type 0
IsEarlier run_id s es = (more : List RuntimeEvent) × (es ≡ log s run_id ++ more)

abbrev pub AreEarlier : ℕ → List Store → List RuntimeEvent → Type 0
AreEarlier run_id [] es = Unit
AreEarlier run_id (s ∷ stores) es = IsEarlier run_id s es × AreEarlier run_id stores es

module _ (limit k : ℕ) (s : Store) (es : List RuntimeEvent) (numbered : Numbered k 0 es)
    (earlier : IsEarlier k s es) where
  log-Numbered : Numbered k 0 (log s k)
  log-Numbered = Numbered-prefix k 0 (log s k) earlier.0 (subst (Numbered k 0) earlier.1 numbered)

  -- A page holds the next events, all of them new.
  pub page_lem :
      (last : ℕ) (page : List RuntimeEvent)
      → list_events s k last limit ≡ ok page
      → (page ≡ take limit (drop last (log s k)))
        × (yield_from last (sorted page) ≡ (page, last + length page))
        × Starts page (drop last es)
  page_lem last page h =
      let is : page ≡ take limit (drop last (log s k)) =
        list_events-ok s k last limit h
        ∙ ap (take limit) (keep-drop k 0 last last (log s k) log-Numbered (omega arith)) in
      let from : Numbered k last page = subst (Numbered k last) (sym is) (
        Numbered-take k last limit (drop last (log s k)) (
          subst (λ i. Numbered k i (drop last (log s k))) (omega arith)
            (Numbered-drop k 0 last (log s k) log-Numbered))) in
      let starts : Starts page (drop last es) =
        subst (λ p. Starts p (drop last es)) (sym is)
          (subst (λ l. Starts (take limit (drop last (log s k))) (drop last l)) (sym earlier.1)
            (page-Starts limit last (log s k) earlier.0)) in
      (
        is,
        ap (yield_from last) (sorted-Numbered k last page from)
            ∙ yield_from-Numbered k last page from,
        starts,
      )

-- What a catch-up from `last` yields are the next events, up to its `last_sequence`.
abbrev pub Yields : ℕ → List RuntimeEvent → CatchUp → Type 0
Yields last es found =
    Starts found.events (drop last es) × (found.last_sequence ≡ last + length found.events)

pub catch_up-Yields :
    (limit k last : ℕ) (stores : List Store) (es : List RuntimeEvent)
    → Numbered k 0 es
    → AreEarlier k stores es
    → Yields last es (catch_up limit k last stores)
unfolding catch_up
catch_up-Yields limit k last [] es numbered earlier = ((drop last es, refl), omega arith)
catch_up-Yields limit k last (s ∷ stores) es numbered (here, earlier) =
    elim (Outcome-cases (list_events s k last limit)) [
      | inl (e, p) ↦ rw p ((drop last es, refl), omega arith)
      | inr (page, p) ↦
          let (_, yielded, starts) = page_lem limit k s es numbered here last page p in
          let later = catch_up limit k (last + length page) stores in
          let (next, at) =
            catch_up-Yields limit k (last + length page) stores es numbered earlier in
          let both = length-append page later.events in
          rw (p, yielded)
            (branch-keeps (Yields last es) (ltb (length page) limit || length page == 0) _ _
              (λ _. (starts, refl))
              (λ _. (Starts-append last page later.events es starts next, omega arith)))
    ]
