-- ===== src/Human/Settling.antt =====
-- `update_verification_status` where it returns, and a second update of the same verification.
use diagops.Base.{
  contains, ap, is_refused, Outcome-cases, ℕ, Bool, true, false, Option, some, List, [], ◌∷◌, ◌≡◌,
  ◌⊎◌, refl, any, first, not, ◌==◌, is_some, ok, arith, inl, inr, Bool-cases,
}
use diagops.Base.Dict
use diagops.Base.Dict.{get-put}
use diagops.Repository.Records.{
  Repository, InvestigationRecord, VerificationSuggestion, VerificationStatus,
}
use diagops.Repository.Defs
use diagops.Human.Checks.{Texts, sanitized, subset, replace_first}
use diagops.Human.Evidence.{AllBacked, subset-AllBacked}
use diagops.Human.Verifications.{
  VerificationResult, is_pending, is_verdict, opt_or, unique, unique_from, valid_items,
  check_references, check_result, has_verification_id, settled_as, validate_verification_transition,
  update_verification_status, list_eq,
}

-- Nothing new stands in the list without repetitions.
any-unique_from :
    (p : ℕ → Bool) (seen xs : List ℕ) → any p xs ≡ false → any p (unique_from seen xs) ≡ false
unfolding unique_from any
any-unique_from p seen [] h = refl
any-unique_from p seen (x ∷ xs) h = elim (Bool-cases (contains seen x)) [
  | inl e ↦ rw e (any-unique_from p seen xs (ground arith))
  | inr e ↦ let rest = any-unique_from p (x ∷ seen) xs (ground arith) in rw e (ground arith)
]

subset-unique : (xs ys : List ℕ) → subset xs ys ≡ true → subset (unique xs) ys ≡ true
unfolding subset unique
subset-unique xs ys h =
    let kept = any-unique_from (λ x. not (contains ys x)) [] xs (ground arith) in ground arith

check_references-ok :
    (record_ : InvestigationRecord) (verification : VerificationSuggestion) (candidate_ids : List ℕ)
    (result : VerificationResult)
    → check_references record_ verification candidate_ids result ≡ ok tt
    → subset result.result_evidence_ids (valid_items record_ record_.provider_results) ≡ true
unfolding check_references
check_references-ok record_ verification candidate_ids result h = ground arith

check_result-ok :
    (target : VerificationStatus) (text : Option ℕ) (candidate_ids : List ℕ)
    (result : VerificationResult)
    → check_result target text candidate_ids result ≡ ok tt
    → ((is_verdict target ≡ true)
        × (is_some text ≡ true)
        × (list_eq result.result_evidence_ids [] ≡ false))
      ⊎ ((is_verdict target ≡ false) × (list_eq result.result_evidence_ids [] ≡ true))
unfolding check_result
check_result-ok target text candidate_ids result h = ground arith

abbrev candidates : VerificationSuggestion → VerificationResult → List ℕ
candidates verification result =
    opt_or result.related_candidate_ids verification.related_candidate_ids

validate-ok :
    (texts : Texts) (record_ : InvestigationRecord) (id : ℕ) (target : VerificationStatus)
    (result : VerificationResult) {updated : VerificationSuggestion}
    → validate_verification_transition texts record_ id target result ≡ ok updated
    → (old : VerificationSuggestion) × (first
          (has_verification_id id)
          record_.verification_suggestions
        ≡ some old)
      × (is_pending old.status ≡ true)
      × (is_pending target ≡ false)
      × (check_references record_ old (candidates old result) result ≡ ok tt)
      × (check_result target (sanitized texts result.result_note) (candidates old result) result
          ≡ ok tt)
      × (updated
          ≡ settled_as old target
              (sanitized texts result.result_note)
              (candidates old result)
              result)
unfolding validate_verification_transition
validate-ok texts record_ id target result h = ground arith

update_verification_status-ok :
    (texts : Texts) (repo : Repository) (k id : ℕ) (target : VerificationStatus)
    (result : VerificationResult) (now : ℕ) (record_ : InvestigationRecord)
    {updated : VerificationSuggestion} {repo' : Repository}
    → Dict.get repo.records k ≡ some record_
    → update_verification_status texts repo k id target result now ≡ ok (updated, repo')
    → (validate_verification_transition texts record_ id target result ≡ ok updated)
      × (repo' ≡ record repo {
        records = Dict.put repo.records record_.id (record record_ {
          verification_suggestions =
              replace_first (has_verification_id id) updated record_.verification_suggestions;
          updated_at = now;
        });
      })
unfolding update_verification_status Defs.get
update_verification_status-ok texts repo k id target result now record_ found h = ground arith

first-replace_first :
    (p : VerificationSuggestion → Bool) (old new : VerificationSuggestion)
    (items : List VerificationSuggestion)
    → first p items ≡ some old
    → p new ≡ true
    → first p (replace_first p new items) ≡ some new
unfolding first replace_first
first-replace_first p old new [] h k = cc
first-replace_first p old new (x ∷ items) h k = ground (arith, first-replace_first p old new items)

first-holds :
    (p : VerificationSuggestion → Bool) (items : List VerificationSuggestion)
    (old : VerificationSuggestion)
    → first p items ≡ some old
    → p old ≡ true
unfolding first
first-holds p [] old h = cc
first-holds p (x ∷ items) old h = ground (arith, first-holds p items old)

list_eq-unique : (xs : List ℕ) → list_eq (unique xs) [] ≡ list_eq xs []
unfolding unique unique_from list_eq any
list_eq-unique [] = refl
list_eq-unique (x ∷ xs) = refl

is_pending-eq :
    (status : VerificationStatus) → is_pending status ≡ true → status ≡ VerificationStatus.pending
is_pending-eq status h = ground arith

-- A verification that is not pending cannot be updated.
refused_if_settled :
    (texts : Texts) (repo : Repository) (k id : ℕ) (target : VerificationStatus)
    (result : VerificationResult) (now : ℕ) (record_ : InvestigationRecord)
    (held : VerificationSuggestion)
    → Dict.get repo.records k ≡ some record_
    → first (has_verification_id id) record_.verification_suggestions ≡ some held
    → is_pending held.status ≡ false
    → is_refused (update_verification_status texts repo k id target result now) ≡ true
refused_if_settled texts repo k id target result now record_ held found at settled =
    elim (Outcome-cases (update_verification_status texts repo k id target result now)) [
      | inl (e, p) ↦ rw p refl
      | inr ((updated, repo'), p) ↦
          let (valid, _) =
            update_verification_status-ok texts repo k id target result now record_ found p in
          let (old, at_old, pending, _, _, _, _) =
            validate-ok texts record_ id target result valid in
          let it : old ≡ held = cc in let was = ap (λ v. is_pending v.status) it in ground arith
    ]

-- An update of a verification that returns, of a record stored under its id, found a pending one and
-- moves it to a verdict or to skipped. Each result evidence is the id of a usable item of that record
-- and of a usable item, of the same provider, in a usable result of this provider. A verdict has a
-- note and evidence, and a skipped verification has none of the latter. After it every other update
-- of the verification is refused, whatever it asks for.
pub update_verification_status-settles :
    (texts : Texts) (repo : Repository) (k id : ℕ) (target : VerificationStatus)
    (result : VerificationResult) (now : ℕ) (record_ : InvestigationRecord)
    (updated : VerificationSuggestion) (repo' : Repository)
    → Dict.get repo.records k ≡ some record_
    → record_.id ≡ k
    → update_verification_status texts repo k id target result now ≡ ok (updated, repo')
    → (target' : VerificationStatus) (result' : VerificationResult) (later : ℕ)
    → (old : VerificationSuggestion) × (first
          (has_verification_id id)
          record_.verification_suggestions
        ≡ some old)
      × (old.status ≡ VerificationStatus.pending)
      × (updated.status ≡ target)
      × (is_pending target ≡ false)
      × AllBacked record_ updated.result_evidence_ids
      × (((is_verdict target ≡ true)
            × (is_some updated.result_note ≡ true)
            × (list_eq updated.result_evidence_ids [] ≡ false))
          ⊎ ((is_verdict target ≡ false) × (list_eq updated.result_evidence_ids [] ≡ true)))
      × (is_refused (update_verification_status texts repo' k id target' result' later) ≡ true)
update_verification_status-settles texts repo k id target result now record_ updated repo' found
      here h target' result' later =
    let (valid, final) =
      update_verification_status-ok texts repo k id target result now record_ found h in
    let (old, at, was, now_settled, refs, res, shape) =
      validate-ok texts record_ id target result valid in
    let evidence = check_references-ok record_ old (candidates old result) result refs in
    let verdict =
      check_result-ok target (sanitized texts result.result_note) (candidates old result) result
        res in
    let kept =
      subset-unique result.result_evidence_ids (valid_items record_ record_.provider_results)
        evidence in
    let empty = list_eq-unique result.result_evidence_ids in
    let same_id = first-holds (has_verification_id id) record_.verification_suggestions old at in
    let shape_status = ap (λ v. v.status) shape in
    let again =
      first-replace_first (has_verification_id id) old updated record_.verification_suggestions at
        (rw shape same_id) in
    let same_key : (record_.id == k) ≡ true = ground arith in
    let found' : Dict.get repo'.records k
        ≡ some (record record_ {
          verification_suggestions =
              replace_first (has_verification_id id) updated record_.verification_suggestions;
          updated_at = now;
        }) =
      rw (final, get-put, same_key) refl in
    (
      old,
      at,
      is_pending-eq old.status was,
      shape_status,
      now_settled,
      rw shape (subset-AllBacked record_ (unique result.result_evidence_ids) kept),
      rw (shape, empty) verdict,
      refused_if_settled texts repo' k id target' result' later _ updated found' again
          (rw shape now_settled),
    )
