-- ===== src/Review/Validity.antt =====
-- `reviewInvalidReasons` against the rule that it encodes.
use governed_learning_loop.Prelude.{◌≡◌, ◌≢◌, ◌↔◌, ◌⊎◌, refl, List, [], ◌∷◌, arith, All}
use governed_learning_loop.Review.{
  CandidateReview, ReviewFinding, accept, blocking, blocking_reasons, review_invalid_reasons,
  ReviewDisposition_eq, FindingSeverity_eq, disposition_beq_iff, severity_beq_iff,
}

abbrev pub IsHarmless : ReviewFinding → Type 0
IsHarmless finding = finding.severity ≢ blocking

blocking_reasons-nil_iff :
    (findings : List ReviewFinding) → (blocking_reasons findings ≡ []) ↔ All IsHarmless findings
unfolding blocking_reasons
blocking_reasons-nil_iff [] = (λ _. tt, λ _. refl)
blocking_reasons-nil_iff (finding ∷ findings) =
    ground (arith, severity_beq_iff finding.severity blocking, blocking_reasons-nil_iff findings)

-- A review has no reason to be invalid exactly when it does not accept or none of its findings is
-- blocking.
pub review_valid_iff :
    (review : CandidateReview)
    → (review_invalid_reasons review ≡ [])
      ↔ ((review.disposition ≢ accept) ⊎ All IsHarmless review.findings)
unfolding review_invalid_reasons
review_valid_iff review =
    ground (
      arith,
      disposition_beq_iff review.disposition accept,
      blocking_reasons-nil_iff review.findings,
    )
