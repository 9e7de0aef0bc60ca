-- ===== src/Hub/Complete.antt =====
-- A catch-up that finds the same store at each of its queries.
use diagops.Hub.CatchUp.{page_lem}
use mathlib.Core.List.{append-nil}
use diagops.Domain.Run.{RuntimeRun}
use diagops.Base.Dict
use diagops.Store.Paging.{list_events-page}
use diagops.Base.{
  ℕ, zero, suc, ◌+◌, ◌≤◌, ◌<◌, true, List, [], ◌∷◌, ◌++◌, ◌≡◌, refl, sym, ap, ◌∙◌, some, ◌||◌, ◌==◌,
  ltb, length, take, ok, arith, Bool-cases, branch-keeps, ◌-◌, inl, inr,
}
use diagops.Domain.Event.{RuntimeEvent}
use diagops.Store.State.{Store, log}
use diagops.Store.Runs.{list_events}
use diagops.Store.Evolve.{Numbered}
use diagops.Store.Paging.{drop}
use diagops.Hub.Stream.{returned, CatchUp, catch_up}
use diagops.Hub.Slices.{drop-piece}

-- `stores` finds the same store at each of `n` queries.
abbrev pub unchanged : ℕ → Store → List Store
unchanged zero s = []
unchanged (suc n) s = s ∷ unchanged n s

pub take-all : (n : ℕ) (es : List RuntimeEvent) → length (take n es) < n → take n es ≡ es
take-all zero es h = absurd (omega arith)
take-all (suc n) [] h = refl
take-all (suc n) (e ∷ es) h = ap (λ l. e ∷ l) (take-all n es (omega arith))

pub length-take : (n : ℕ) (es : List RuntimeEvent) → length (take n es) ≡ 0 → 0 < n → es ≡ []
length-take zero es h p = absurd (omega arith)
length-take (suc n) [] h p = refl
length-take (suc n) (e ∷ es) h p = absurd (omega arith)

abbrev pub Completes : ℕ → List RuntimeEvent → CatchUp → Type 0
Completes last es found = (found.events ≡ drop last es) × (found.ending ≡ returned)

pub length-drop : (m : ℕ) (es : List RuntimeEvent) → length (drop m es) ≡ length es - m
length-drop zero es = omega arith
length-drop (suc m) [] = omega arith
length-drop (suc m) (e ∷ es) = let rest = length-drop m es in omega arith

pub length-take_le : (n : ℕ) (es : List RuntimeEvent) → length (take n es) ≤ length es
length-take_le zero es = omega arith
length-take_le (suc n) [] = omega arith
length-take_le (suc n) (e ∷ es) = let rest = length-take_le n es in omega arith

take-nil : (n : ℕ) → take {A = RuntimeEvent} n [] ≡ []
take-nil zero = refl
take-nil (suc n) = refl

-- A page that is short or empty is all that is left.
last_page :
    (limit : ℕ) (page es : List RuntimeEvent)
    → 0 < limit
    → page ≡ take limit es
    → (ltb (length page) limit || length page == 0) ≡ true
    → page ≡ es
last_page limit page es positive is short =
    let size = ap length is in
    elim (Bool-cases (ltb (length page) limit)) [
      | inl e ↦ is ∙ take-all limit es (ground arith)
      | inr e ↦
          let none_left = length-take limit es (ground arith) positive in
          is ∙ ap (take limit) none_left ∙ take-nil limit ∙ sym none_left
    ]

-- With pages of at least one event, a catch-up on a run that is there whose store does not change
-- yields, in order, all events of the log after number `last` and returns, if it may make more
-- queries than there are such events.
pub catch_up-Completes :
    (limit k last n : ℕ) (s : Store) (run : RuntimeRun)
    → 0 < limit
    → Dict.get s.runs k ≡ some run
    → Numbered k 0 (log s k)
    → length (log s k) - last < n
    → Completes last (log s k) (catch_up limit k last (unchanged n s))
unfolding catch_up
catch_up-Completes limit k last zero s run positive found numbered enough = absurd (omega arith)
catch_up-Completes limit k last (suc n) s run positive found numbered enough =
    let page = take limit (drop last (log s k)) in
    let answer : list_events s k last limit ≡ ok page =
      list_events-page s k last limit run found (ground arith) numbered in
    let (_, yielded, starts) =
      page_lem limit k s (log s k) numbered ([], sym (append-nil (log s k))) last page answer in
    let size = length-drop last (log s k) in
    let short = length-take_le limit (drop last (log s k)) in
    rw (answer, yielded)
      (branch-keeps (Completes last (log s k)) (ltb (length page) limit || length page == 0) _ _
        (λ ends. (last_page limit page (drop last (log s k)) positive refl ends, refl))
        (λ goes_on.
          let some_event : 0 < length page = ground arith in
          let rest =
            catch_up-Completes limit k (last + length page) n s run positive found numbered
              (omega arith) in
          (sym (drop-piece last page (log s k) starts ∙ ap (λ l. page ++ l) (sym rest.0)), rest.1)))
