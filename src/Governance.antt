-- ===== src/Governance.antt =====
-- engine/governance.ts: the governance view, folded from the stored reviews of a candidate, oldest
-- first, the destination's registration and the configured authority.
pub mod Eligibility
mod Tests
use governed_learning_loop.Prelude.{
  String, Bool, true, false, not, Option, none, some, List, [], ◌∷◌, ◌++◌, map, keep, last?,
  if◌then◌else◌, ◌==◌, String_eq,
}
use governed_learning_loop.Diagnostics.{Diagnostic, Severity, error}
use governed_learning_loop.Diagnostics.{info as severity_info, warning as severity_warning}
use governed_learning_loop.Intervention.{Validation, untested}
use governed_learning_loop.Review.{
  CandidateReview, ReviewDisposition, accept, revise, reject, escalate, ReviewFinding,
  FindingSeverity, info, warning, blocking,
}

pub data ReviewState : Type 0 where
  not_required required accepted blocked : ReviewState

-- The text of `ineligible` is "blocked".
pub data PublicationEligibility : Type 0 where
  eligible ineligible : PublicationEligibility

pub record GovernanceView : Type 0 where
  pub review : ReviewState
  pub publication : PublicationEligibility
  pub validation : Validation
  pub reasons : List Diagnostic

pub record GovernanceViewInput : Type 0 where
  pub candidate_digest : String
  pub requires_independent_review : Bool
  pub reviews : List CandidateReview
  pub destination_registered : Bool
  pub authority_configured : Bool

abbrev pub finding_severity : FindingSeverity → Severity
finding_severity info = severity_info
finding_severity warning = severity_warning
finding_severity blocking = error

abbrev pub finding_diagnostics : CandidateReview → List Diagnostic
finding_diagnostics review =
    map
      (λ (finding : ReviewFinding). record {
        code = finding.code;
        severity = finding_severity finding.severity;
      })
      review.findings

-- Reviews of the current content.
abbrev pub binds : String → CandidateReview → Bool
binds digest review = review.candidate_digest == digest

abbrev pub reason : String → Severity → Diagnostic
reason code severity = record { code = code; severity = severity }

-- The state of the review, with its reasons, by the disposition of the decisive review.
abbrev pub decided : ReviewDisposition → List Diagnostic → ReviewState × List Diagnostic
decided accept findings = (accepted, [])
decided revise findings = (required, reason "review.required" severity_info ∷ findings)
decided _ findings = (blocked, reason "review.blocked" error ∷ findings)

abbrev pub decisive_state : Option CandidateReview → ReviewState × List Diagnostic
decisive_state none = (required, reason "review.required" severity_info ∷ [])
decisive_state (some review) = decided review.disposition (finding_diagnostics review)

unfoldable pub review_state : GovernanceViewInput → ReviewState × List Diagnostic
review_state input =
    let decisive = last? (keep (binds input.candidate_digest) input.reviews) in
    if not input.requires_independent_review then (not_required, []) else decisive_state decisive

abbrev pub is_settled : ReviewState → Bool
is_settled accepted = true
is_settled not_required = true
is_settled _ = false

-- A condition that is missing is a reason and blocks the publication.
unfoldable pub block_unless :
    Bool
    → String
    → PublicationEligibility × List Diagnostic
    → PublicationEligibility × List Diagnostic
block_unless condition code (publication, reasons) =
    if condition then (publication, reasons) else (ineligible, reasons ++ reason code error ∷ [])

unfoldable pub compute_governance_view : GovernanceViewInput → GovernanceView
unfolding review_state block_unless
compute_governance_view input =
    let folded = review_state input in
    let outcome = block_unless input.authority_configured "policy.authority_insufficient" (
      block_unless input.destination_registered "publication.destination_unknown"
        (block_unless (is_settled folded.0) "policy.blocked" (eligible, folded.1))) in
    record {
      review = folded.0;
      publication = outcome.0;
      validation = untested;
      reasons = outcome.1;
    }
