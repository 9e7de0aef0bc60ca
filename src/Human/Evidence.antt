-- ===== src/Human/Evidence.antt =====
-- The evidence that `validate_verification_transition` lets a verification refer to.
use mathlib.Core.List.Memᴰ
use mathlib.Core.List.{Memᴰ}
use mathlib.Core.Path.{subst}
use diagops.Base.{
  ℕ, Bool, true, some, List, [], ◌∷◌, ◌++◌, map, keep, any, latest, contains, ◌≡◌, ◌⊎◌, refl, ap,
  ◌∙◌, inl, inr, arith, ◌==◌, ◌&&◌, if◌then◌else◌, Bool-cases, Option-cases,
}
use diagops.Repository.Records.{InvestigationRecord, EvidenceItem, ProviderResult, ProviderStatus}
use diagops.Human.Checks.{subset}
use diagops.Human.Verifications.{is_usable, is_valid_item, eligible_evidence, valid_items}

abbrev pub IsUsable : ProviderStatus → Type 0
IsUsable status = (status ≡ ProviderStatus.success) ⊎ (status ≡ ProviderStatus.partial)

-- A usable result of a provider offers a usable item of the provider's own with that id, and the
-- record holds a usable item of that provider with it.
pub record IsBacked (record_ : InvestigationRecord) (results : List ProviderResult) (id : ℕ)
    : Type 0 where
  pub result : ProviderResult
  pub from_results : Memᴰ result results
  pub result_usable : IsUsable result.status
  pub offered : EvidenceItem
  pub from_result : Memᴰ offered result.evidence_items
  pub offered_usable : IsUsable offered.status
  pub offered_id : offered.id ≡ id
  pub offered_provider : offered.provider ≡ result.provider
  pub held : EvidenceItem
  pub from_record : Memᴰ held record_.evidence
  pub held_usable : IsUsable held.status
  pub held_id : held.id ≡ id
  pub held_provider : held.provider ≡ result.provider

abbrev pub AllBacked : InvestigationRecord → List ℕ → Type 0
AllBacked record_ [] = Unit
AllBacked record_ (id ∷ ids) = IsBacked record_ record_.provider_results id × AllBacked record_ ids

is_usable-IsUsable : (status : ProviderStatus) → is_usable status ≡ true → IsUsable status
is_usable-IsUsable status h = ground arith

module _ {A : Type 0} where
  keep-Mem : (p : A → Bool) (xs : List A) {a : A} → Memᴰ a (keep p xs) → Memᴰ a xs × (p a ≡ true)
  unfolding keep
  keep-Mem p [] m = absurd (Memᴰ.not-nil m)
  keep-Mem p (x ∷ xs) {a} m = elim (Bool-cases (p x)) [
    | inl e ↦
        elim (Memᴰ.cases_cons (subst (λ b. Memᴰ a (if b then x ∷ keep p xs else keep p xs)) e m)) [
          | inl same_one ↦ (Memᴰ.head same_one, ap p same_one ∙ e)
          | inr later ↦ let (inside, holds) = keep-Mem p xs later in (Memᴰ.tail inside, holds)
        ]
    | inr e ↦
        let (inside, holds) =
          keep-Mem p xs (subst (λ b. Memᴰ a (if b then x ∷ keep p xs else keep p xs)) e m) in
        (Memᴰ.tail inside, holds)
  ]

  latest-Mem :
      (p : A → Bool) (xs : List A) {a : A} → latest p xs ≡ some a → Memᴰ a xs × (p a ≡ true)
  unfolding latest
  latest-Mem p [] h = cc
  latest-Mem p (x ∷ xs) h = elim (Option-cases (latest p xs)) [
    | inl e ↦ (Memᴰ.head (ground arith), ground arith)
    | inr (y, e) ↦
        let (inside, holds) = latest-Mem p xs e in
        (Memᴰ.tail (subst (λ b. Memᴰ b xs) (ground arith) inside), ground arith)
  ]

eligible_evidence-ok :
    (record_ : InvestigationRecord) (id : ℕ) {held : EvidenceItem}
    → eligible_evidence record_ id ≡ some held
    → Memᴰ held record_.evidence × (is_usable held.status ≡ true) × (held.id ≡ id)
unfolding eligible_evidence
eligible_evidence-ok record_ id h =
    let (kept, same_id) = latest-Mem (λ e. e.id == id) _ h in
    let (inside, usable) = keep-Mem (λ e. is_usable e.status) record_.evidence kept in
    (inside, usable, ground arith)

contains-map-keep :
    (p : EvidenceItem → Bool) (items : List EvidenceItem) (id : ℕ)
    → contains (map (λ e. e.id) (keep p items)) id ≡ true
    → (e : EvidenceItem) × Memᴰ e items × (p e ≡ true) × (e.id ≡ id)
unfolding keep any
contains-map-keep p [] id h = cc
contains-map-keep p (x ∷ items) id h = elim (Bool-cases (p x && x.id == id)) [
  | inl e ↦ (x, Memᴰ.head refl, ground arith, ground arith)
  | inr e ↦
      let (y, inside, holds, same_id) = contains-map-keep p items id (ground arith) in
      (y, Memᴰ.tail inside, holds, same_id)
]

contains-either :
    (xs ys : List ℕ) (id : ℕ)
    → contains (xs ++ ys) id ≡ true
    → (contains xs id ≡ true) ⊎ (contains ys id ≡ true)
unfolding any
contains-either [] ys id h = inr h
contains-either (x ∷ xs) ys id h = ground (arith, contains-either xs ys id)

is_valid_item-ok :
    (record_ : InvestigationRecord) (result : ProviderResult) (item : EvidenceItem)
    → is_valid_item record_ result item ≡ true
    → (is_usable item.status ≡ true)
      × (item.provider ≡ result.provider)
      × (held : EvidenceItem) × (eligible_evidence record_ item.id ≡ some held)
      × (held.provider ≡ result.provider)
is_valid_item-ok record_ result item h = ground arith

module _ (record_ : InvestigationRecord) (id : ℕ) where
  IsBacked-later :
      (result : ProviderResult) (results : List ProviderResult)
      → IsBacked record_ results id
      → IsBacked record_ (result ∷ results) id
  IsBacked-later result results b = record {
    result = b.result;
    from_results = Memᴰ.tail b.from_results;
    result_usable = b.result_usable;
    offered = b.offered;
    from_result = b.from_result;
    offered_usable = b.offered_usable;
    offered_id = b.offered_id;
    offered_provider = b.offered_provider;
    held = b.held;
    from_record = b.from_record;
    held_usable = b.held_usable;
    held_id = b.held_id;
    held_provider = b.held_provider;
  }

  IsBacked-first :
      (result : ProviderResult) (results : List ProviderResult)
      → is_usable result.status ≡ true
      → contains (map (λ e. e.id) (keep (is_valid_item record_ result) result.evidence_items)) id
        ≡ true
      → IsBacked record_ (result ∷ results) id
  IsBacked-first result results usable h =
      let (item, inside, valid, same_id) =
        contains-map-keep (is_valid_item record_ result) result.evidence_items id h in
      let (item_usable, own, held, found, of_provider) =
        is_valid_item-ok record_ result item valid in
      let (there, held_usable, held_id) = eligible_evidence-ok record_ item.id found in
      record {
        result = result;
        from_results = Memᴰ.head refl;
        result_usable = is_usable-IsUsable result.status usable;
        offered = item;
        from_result = inside;
        offered_usable = is_usable-IsUsable item.status item_usable;
        offered_id = same_id;
        offered_provider = own;
        held = held;
        from_record = there;
        held_usable = is_usable-IsUsable held.status held_usable;
        held_id = held_id ∙ same_id;
        held_provider = of_provider;
      }

  valid_items-IsBacked :
      (results : List ProviderResult)
      → contains (valid_items record_ results) id ≡ true
      → IsBacked record_ results id
  unfolding valid_items any
  valid_items-IsBacked [] h = cc
  valid_items-IsBacked (result ∷ results) h = elim (Bool-cases (is_usable result.status)) [
    | inr e ↦ IsBacked-later result results (valid_items-IsBacked results (ground arith))
    | inl e ↦
        elim (contains-either
          (map (λ x. x.id) (keep (is_valid_item record_ result) result.evidence_items)) _ id
          (ground arith)) [
            | inl here ↦ IsBacked-first result results e here
            | inr later ↦ IsBacked-later result results (valid_items-IsBacked results later)
          ]
  ]

-- Ids that all stand among the valid items are all backed.
pub subset-AllBacked :
    (record_ : InvestigationRecord) (ids : List ℕ)
    → subset ids (valid_items record_ record_.provider_results) ≡ true
    → AllBacked record_ ids
unfolding subset any
subset-AllBacked record_ [] h = tt
subset-AllBacked record_ (id ∷ ids) h = (
  valid_items-IsBacked record_ id record_.provider_results (ground arith),
  subset-AllBacked record_ ids (ground arith),
)
