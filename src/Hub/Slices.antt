-- ===== src/Hub/Slices.antt =====
-- Pages of a numbered log: their order, and how they make up the log.
use mathlib.Core.List.{append_assoc}
use mathlib.Core.Path.{subst}
use diagops.Base.{
  ℕ, zero, suc, ◌+◌, true, false, List, [], ◌∷◌, ◌++◌, ◌≡◌, refl, sym, ap, ◌∙◌, leb, length, take,
  arith,
}
use diagops.Domain.Event.{RuntimeEvent}
use diagops.Store.Evolve.{Numbered}
use diagops.Store.Paging.{drop}
use diagops.Hub.Stream.{insert_by_sequence, sorted, yield_from}

pub Numbered-prefix :
    (k n : ℕ) (xs ys : List RuntimeEvent) → Numbered k n (xs ++ ys) → Numbered k n xs
Numbered-prefix k n [] ys h = tt
Numbered-prefix k n (x ∷ xs) ys (number, run, rest) =
    (number, run, Numbered-prefix k (suc n) xs ys rest)

pub Numbered-take :
    (k n m : ℕ) (es : List RuntimeEvent) → Numbered k n es → Numbered k n (take m es)
Numbered-take k n zero es h = tt
Numbered-take k n (suc m) [] h = tt
Numbered-take k n (suc m) (e ∷ es) (number, run, rest) =
    (number, run, Numbered-take k (suc n) m es rest)

pub Numbered-drop :
    (k n m : ℕ) (es : List RuntimeEvent) → Numbered k n es → Numbered k (n + m) (drop m es)
Numbered-drop k n zero es h = subst (λ i. Numbered k i es) (omega arith) h
Numbered-drop k n (suc m) [] h = tt
Numbered-drop k n (suc m) (e ∷ es) (number, run, rest) =
    subst (λ i. Numbered k i (drop m es)) (omega arith) (Numbered-drop k (suc n) m es rest)

pub sorted-Numbered : (k n : ℕ) (es : List RuntimeEvent) → Numbered k n es → sorted es ≡ es
unfolding sorted insert_by_sequence
sorted-Numbered k n [] h = refl
sorted-Numbered k n (e ∷ []) h = refl
sorted-Numbered k n (e ∷ x ∷ es) (number, run, rest) =
    let later = sorted-Numbered k (suc n) (x ∷ es) rest in
    let first : leb e.sequence x.sequence ≡ true = ground arith in
    ap (insert_by_sequence e) later ∙ (rw first refl)

pub yield_from-Numbered :
    (k n : ℕ) (es : List RuntimeEvent) → Numbered k n es → yield_from n es ≡ (es, n + length es)
unfolding yield_from
yield_from-Numbered k n [] h = ground arith
yield_from-Numbered k n (e ∷ es) (number, run, rest) =
    let more = yield_from-Numbered k (suc n) es rest in
    let fresh : leb e.sequence n ≡ false = ground arith in rw (fresh, number, more) (ground arith)

-- The elements that a list starts with.
abbrev pub Starts : List RuntimeEvent → List RuntimeEvent → Type 0
Starts xs es = (rest : List RuntimeEvent) × (es ≡ xs ++ rest)

take-Starts : (n : ℕ) (xs ys : List RuntimeEvent) → Starts (take n xs) (xs ++ ys)
take-Starts zero xs ys = (xs ++ ys, refl)
take-Starts (suc n) [] ys = (ys, refl)
take-Starts (suc n) (x ∷ xs) ys = let (rest, e) = take-Starts n xs ys in (rest, ap (λ l. x ∷ l) e)

pub page-Starts :
    (n m : ℕ) (xs ys : List RuntimeEvent) → Starts (take n (drop m xs)) (drop m (xs ++ ys))
page-Starts n zero xs ys = take-Starts n xs ys
page-Starts zero (suc m) [] ys = (drop (suc m) ys, refl)
page-Starts (suc n) (suc m) [] ys = (drop (suc m) ys, refl)
page-Starts n (suc m) (x ∷ xs) ys = page-Starts n m xs ys

drop-length : (xs ys : List RuntimeEvent) → drop (length xs) (xs ++ ys) ≡ ys
drop-length [] ys = refl
drop-length (x ∷ xs) ys = drop-length xs ys

drop-nil : (n : ℕ) → drop n [] ≡ []
drop-nil zero = refl
drop-nil (suc n) = refl

drop-drop : (m n : ℕ) (es : List RuntimeEvent) → drop n (drop m es) ≡ drop (m + n) es
drop-drop zero n es = ap (λ i. drop i es) (omega arith)
drop-drop (suc m) n [] = drop-nil n ∙ sym (drop-nil (suc m + n))
drop-drop (suc m) n (e ∷ es) =
    let at : suc (m + n) ≡ suc m + n = omega arith in
    drop-drop m n es ∙ ap (λ i. drop i (e ∷ es)) at

pub drop-piece :
    (a : ℕ) (xs es : List RuntimeEvent)
    → Starts xs (drop a es)
    → drop a es ≡ xs ++ drop (a + length xs) es
drop-piece a xs es (rest, e) =
    let next : rest ≡ drop (a + length xs) es =
      sym (drop-length xs rest) ∙ ap (drop (length xs)) (sym e) ∙ drop-drop a (length xs) es in
    e ∙ ap (λ l. xs ++ l) next

-- Two pieces in a row.
pub Starts-append :
    (a : ℕ) (xs ys es : List RuntimeEvent)
    → Starts xs (drop a es)
    → Starts ys (drop (a + length xs) es)
    → Starts (xs ++ ys) (drop a es)
Starts-append a xs ys es first (rest, e) =
    (rest, drop-piece a xs es first ∙ ap (λ l. xs ++ l) e ∙ sym (append_assoc xs ys rest))
