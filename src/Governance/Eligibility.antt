-- ===== src/Governance/Eligibility.antt =====
-- When a governance view allows a publication.
use governed_learning_loop.Prelude.{
  String, ◌≡◌, ◌≢◌, ◌↔◌, ◌⊎◌, inl, inr, refl, sym, ap, ◌∙◌, Bool, true, false, Option, none, some,
  List, [], ◌∷◌, ◌++◌, keep, last?, any, last?-append, arith, String_eq, Bool-cases,
}
use governed_learning_loop.Diagnostics.{Diagnostic}
use governed_learning_loop.Review.{
  CandidateReview, accept, revise, reject, escalate, ReviewDisposition,
}
use governed_learning_loop.Governance.{
  GovernanceViewInput, compute_governance_view, review_state, block_unless, binds, is_settled,
  eligible, decisive_state, decided, finding_diagnostics, PublicationEligibility, ineligible,
}

module _ {ℓ} {A : Type ℓ} (p : A → Bool) where
  keep-append : (xs ys : List A) → keep p (xs ++ ys) ≡ keep p xs ++ keep p ys
  keep-append [] ys = refl
  keep-append (x ∷ xs) ys = ground (arith, keep-append xs ys)

  keep-nil : (xs : List A) → any p xs ≡ false → keep p xs ≡ []
  keep-nil [] h = refl
  keep-nil (x ∷ xs) h = ground (arith, keep-nil xs)

  -- The last element that satisfies the test, with what stands around it.
  pub record LastSplit (xs : List A) (r : A) : Type ℓ where
    pub before : List A
    pub after : List A
    pub splits : xs ≡ before ++ r ∷ after
    pub satisfies : p r ≡ true
    pub none_later : any p after ≡ false

  split-last : (xs : List A) (r : A) → LastSplit xs r → last? (keep p xs) ≡ some r
  split-last xs r s = ap (λ l. last? (keep p l)) s.splits ∙ at_split
    where
      at_split : last? (keep p (s.before ++ r ∷ s.after)) ≡ some r
      at_split =
          rw (keep-append s.before (r ∷ s.after), s.satisfies, keep-nil s.after s.none_later)
            (last?-append (keep p s.before) r)

  last-split : (xs : List A) → (any p xs ≡ false) ⊎ ((r : A) × LastSplit xs r)
  last-split [] = inl refl
  last-split (x ∷ xs) = elim (last-split xs) [
    | inr (r, s) ↦ inr (
      r,
      record {
        before = x ∷ s.before;
        after = s.after;
        splits = ap (λ l. x ∷ l) s.splits;
        satisfies = s.satisfies;
        none_later = s.none_later;
      },
    )
    | inl h ↦ elim (Bool-cases (p x)) [
      | inl e ↦
          inr (x, record { before = []; after = xs; splits = refl; satisfies = e; none_later = h })
      | inr e ↦ inl (ground (arith, e, h))
    ]
  ]

-- The latest review of the current content accepts: it is of that content, it accepts, and no later
-- one is of that content.
abbrev pub IsAccepted : GovernanceViewInput → Type 0
IsAccepted input =
    (review : CandidateReview) × LastSplit (binds input.candidate_digest) input.reviews review
    × (review.disposition ≡ accept)

IsAccepted-iff :
    (input : GovernanceViewInput)
    → (is_settled (decisive_state (last? (keep (binds input.candidate_digest) input.reviews))).0
        ≡ true)
      ↔ IsAccepted input
IsAccepted-iff input = (forth (last-split (binds input.candidate_digest) input.reviews), back)
  where
    settles :
        (r : CandidateReview)
        → (is_settled (decided r.disposition (finding_diagnostics r)).0 ≡ true)
        → r.disposition ≡ accept
    settles r h = ground arith

    forth :
        (any (binds input.candidate_digest) input.reviews ≡ false)
          ⊎ ((r : CandidateReview) × LastSplit (binds input.candidate_digest) input.reviews r)
        → is_settled (decisive_state (last? (keep (binds input.candidate_digest) input.reviews))).0
          ≡ true
        → IsAccepted input
    forth (inl none_binds) h =
        let e = keep-nil (binds input.candidate_digest) input.reviews none_binds in
        let f = ap (λ l. is_settled (decisive_state (last? l)).0) e in cc
    forth (inr (r, s)) h =
        let e = split-last (binds input.candidate_digest) input.reviews r s in
        let f = ap (λ o. is_settled (decisive_state o).0) e in (r, s, settles r (sym f ∙ h))

    back :
        IsAccepted input
        → is_settled (decisive_state (last? (keep (binds input.candidate_digest) input.reviews))).0
          ≡ true
    back (r, s, a) =
        ap (λ o. is_settled (decisive_state o).0)
          (split-last (binds input.candidate_digest) input.reviews r s)
        ∙ ap (λ d. is_settled (decided d (finding_diagnostics r)).0) a

settled_iff :
    (input : GovernanceViewInput)
    → (is_settled (review_state input).0 ≡ true)
      ↔ ((input.requires_independent_review ≡ false) ⊎ IsAccepted input)
unfolding review_state
settled_iff input = elim (Bool-cases input.requires_independent_review) [
  | inr e ↦ rw e ((λ _. inl refl), (λ _. refl))
  | inl e ↦ rw e (
    (λ h. inr ((IsAccepted-iff input).0 h)),
    λ h. elim h [ inl f ↦ absurd (ground arith) | inr a ↦ (IsAccepted-iff input).1 a ],
  )
]

-- The publication is eligible exactly when no independent review is required or the latest review
-- of the current content accepts it, and the destination is registered and an authority configured.
pub eligible_iff :
    (input : GovernanceViewInput)
    → ((compute_governance_view input).publication ≡ eligible) ↔ (
        ((input.requires_independent_review ≡ false) ⊎ IsAccepted input)
        × (input.destination_registered ≡ true)
        × (input.authority_configured ≡ true))
unfolding compute_governance_view block_unless
eligible_iff input = (
  λ h. ((settled_iff input).0 (ground arith), ground arith, ground arith),
  λ (r, d, a). let s = (settled_iff input).1 r in rw (a, d, s) refl,
)

decided_quiet :
    (d : ReviewDisposition) (findings : List Diagnostic)
    → is_settled (decided d findings).0 ≡ true
    → (decided d findings).1 ≡ []
decided_quiet accept findings h = refl
decided_quiet revise findings h = cc
decided_quiet reject findings h = cc
decided_quiet escalate findings h = cc

decisive_quiet :
    (o : Option CandidateReview)
    → is_settled (decisive_state o).0 ≡ true
    → (decisive_state o).1 ≡ []
decisive_quiet none h = cc
decisive_quiet (some r) h = decided_quiet r.disposition (finding_diagnostics r) h

settled_quiet :
    (input : GovernanceViewInput)
    → is_settled (review_state input).0 ≡ true
    → (review_state input).1 ≡ []
unfolding review_state
settled_quiet input = elim (Bool-cases input.requires_independent_review) [
  | inr e ↦ rw e (λ _. refl)
  | inl e ↦ rw e (λ h. decisive_quiet _ h)
]

append-ne-nil : (xs : List Diagnostic) (x : Diagnostic) → xs ++ x ∷ [] ≢ []
append-ne-nil [] x e = cc
append-ne-nil (y ∷ xs) x e = cc

block_unless-eq :
    (condition : Bool) (code : String) (before : PublicationEligibility × List Diagnostic)
    → ((before.0 ≡ eligible) ↔ (before.1 ≡ []))
    → ((block_unless condition code before).0 ≡ eligible)
      ↔ ((block_unless condition code before).1 ≡ [])
unfolding block_unless
block_unless-eq true code before h = h
block_unless-eq false code before h =
    ((λ e. absurd (ineligible-ne e)), (λ e. absurd (append-ne-nil _ _ e)))
  where
    ineligible-ne : ineligible ≡ eligible → ⊥
    ineligible-ne e = cc

-- A publication is eligible exactly when the view states no reason: what blocks it is always stated,
-- and nothing is stated of one that is allowed.
pub reasons_iff :
    (input : GovernanceViewInput)
    → ((compute_governance_view input).publication ≡ eligible)
      ↔ ((compute_governance_view input).reasons ≡ [])
unfolding compute_governance_view
reasons_iff input = block_unless-eq input.authority_configured _ _ (
    block_unless-eq input.destination_registered _ _
      (at_review (is_settled (review_state input).0) refl))
  where
    at_review :
        (settled : Bool)
        → is_settled (review_state input).0 ≡ settled
        → ((block_unless settled "policy.blocked" (eligible, (review_state input).1)).0 ≡ eligible)
          ↔ ((block_unless settled "policy.blocked" (eligible, (review_state input).1)).1 ≡ [])
    at_review true e = rw (settled_quiet input e) ((λ _. refl), (λ _. refl))
    at_review false e = ((λ f. cc), (λ f. absurd (append-ne-nil _ _ f)))
