-- ===== src/Governance/Tests.antt =====
-- engine/governance.ts and records/review.ts on an example: a review that accepts after one that
-- asked for a revision.
use governed_learning_loop.Prelude.{◌≡◌, ◌≢◌, ◌↔◌, ◌⊎◌, false, true, none, [], ◌∷◌, All}
use governed_learning_loop.Review.{
  CandidateReview, ReviewDisposition, accept, revise, info, agent, review_invalid_reasons,
}
use governed_learning_loop.Review.Validity.{IsHarmless, review_valid_iff}
use governed_learning_loop.Governance.{GovernanceViewInput, compute_governance_view, eligible}
use governed_learning_loop.Governance.Eligibility.{IsAccepted, eligible_iff, reasons_iff}

abbrev review_with : ReviewDisposition → CandidateReview
review_with disposition = record {
  id = "review";
  candidate_id = "candidate";
  candidate_digest = "digest";
  reviewer = record { id = "reviewer"; kind = agent; independence_domain = "domain" };
  reviewer_attestation_digest = "attestation";
  reviewer_implementation = record {
    id = "implementation";
    version = "1";
    calibration_digest = none;
  };
  disposition = disposition;
  findings = record { code = "style"; severity = info; message = "" } ∷ [];
  reviewed_at = "2026-01-01T00:00:00.000Z";
}

abbrev reviewed_twice : GovernanceViewInput
reviewed_twice = record {
  candidate_digest = "digest";
  requires_independent_review = true;
  reviews = review_with revise ∷ review_with accept ∷ [];
  destination_registered = true;
  authority_configured = true;
}

review_valid_iff_example :
    (review_invalid_reasons (review_with accept) ≡ [])
    ↔ (((review_with accept).disposition ≢ accept) ⊎ All IsHarmless (review_with accept).findings)
review_valid_iff_example = review_valid_iff (review_with accept)

eligible_iff_example : ((compute_governance_view reviewed_twice).publication ≡ eligible) ↔ (
    ((reviewed_twice.requires_independent_review ≡ false) ⊎ IsAccepted reviewed_twice)
    × (reviewed_twice.destination_registered ≡ true)
    × (reviewed_twice.authority_configured ≡ true))
eligible_iff_example = eligible_iff reviewed_twice

reasons_iff_example :
    ((compute_governance_view reviewed_twice).publication ≡ eligible)
    ↔ ((compute_governance_view reviewed_twice).reasons ≡ [])
reasons_iff_example = reasons_iff reviewed_twice
