-- ===== src/Review.antt =====
-- records/review.ts and the principal reference of records/principal.ts: candidate reviews, their
-- parser and the rule that an accepting review carries no blocking finding. The codes of findings
-- are kept; a diagnostic's message and path are not.
pub mod Validity
use governed_learning_loop.Prelude.{
  ℕ, String, ◌≡◌, ◌↔◌, Bool, true, false, Option, List, [], ◌∷◌, ◌++◌, if◌then◌else◌, ◌==◌, nat_eq,
  Eq, arith,
}
use governed_learning_loop.Diagnostics.{Diagnostic, Result, ok, ◌>>=◌, ◌>>◌, diagnostic}
use governed_learning_loop.Json.Parse.{
  Parse, parse_text, parse_non_empty_text, parse_one_of, parse_array_of, parse_durable_id,
  read_fields, req, opt, schema_version_1,
}

pub data PrincipalKind : Type 0 where
  human agent service : PrincipalKind

abbrev pub principal_kinds : List (String × PrincipalKind)
principal_kinds = ("human", human) ∷ ("agent", agent) ∷ ("service", service) ∷ []

pub record PrincipalRef : Type 0 where
  pub id : String
  pub kind : PrincipalKind
  pub independence_domain : String

unfoldable pub parse_principal_ref_at : Parse PrincipalRef
parse_principal_ref_at input = do
  fields ← read_fields input
  id ← req fields "id" parse_non_empty_text
  kind ← req fields "kind" (parse_one_of principal_kinds)
  domain ← req fields "independenceDomain" parse_non_empty_text
  ok (record { id = id; kind = kind; independence_domain = domain })

pub data ReviewDisposition : Type 0 where
  accept revise reject escalate : ReviewDisposition

pub data FindingSeverity : Type 0 where
  info warning blocking : FindingSeverity

abbrev disposition_code : ReviewDisposition → ℕ
disposition_code accept = 0
disposition_code revise = 1
disposition_code reject = 2
disposition_code escalate = 3

abbrev severity_code : FindingSeverity → ℕ
severity_code info = 0
severity_code warning = 1
severity_code blocking = 2

abbrev disposition_beq : ReviewDisposition → ReviewDisposition → Bool
disposition_beq a b = nat_eq (disposition_code a) (disposition_code b)

abbrev severity_beq : FindingSeverity → FindingSeverity → Bool
severity_beq a b = nat_eq (severity_code a) (severity_code b)

pub disposition_beq_iff : (a b : ReviewDisposition) → (disposition_beq a b ≡ true) ↔ (a ≡ b)
disposition_beq_iff a b = ground arith

pub severity_beq_iff : (a b : FindingSeverity) → (severity_beq a b ≡ true) ↔ (a ≡ b)
severity_beq_iff a b = ground arith

instance abbrev pub ReviewDisposition_eq : Eq ReviewDisposition
ReviewDisposition_eq = record { test = disposition_beq; agrees = disposition_beq_iff }

instance abbrev pub FindingSeverity_eq : Eq FindingSeverity
FindingSeverity_eq = record { test = severity_beq; agrees = severity_beq_iff }

abbrev pub review_dispositions : List (String × ReviewDisposition)
review_dispositions =
    ("accept", accept) ∷ ("revise", revise) ∷ ("reject", reject) ∷ ("escalate", escalate) ∷ []

abbrev pub finding_severities : List (String × FindingSeverity)
finding_severities = ("info", info) ∷ ("warning", warning) ∷ ("blocking", blocking) ∷ []

pub record ReviewFinding : Type 0 where
  pub code : String
  pub severity : FindingSeverity
  pub message : String

pub record ReviewerImplementation : Type 0 where
  pub id : String
  pub version : String
  pub calibration_digest : Option String

pub record CandidateReview : Type 0 where
  pub id : String
  pub candidate_id : String
  pub candidate_digest : String
  pub reviewer : PrincipalRef
  pub reviewer_attestation_digest : String
  pub reviewer_implementation : ReviewerImplementation
  pub disposition : ReviewDisposition
  pub findings : List ReviewFinding
  pub reviewed_at : String

unfoldable pub parse_finding_at : Parse ReviewFinding
parse_finding_at input = do
  fields ← read_fields input
  code ← req fields "code" parse_non_empty_text
  severity ← req fields "severity" (parse_one_of finding_severities)
  message ← req fields "message" parse_text
  ok (record { code = code; severity = severity; message = message })

unfoldable pub parse_reviewer_implementation_at : Parse ReviewerImplementation
parse_reviewer_implementation_at input = do
  fields ← read_fields input
  calibration ← opt fields "calibrationDigest" parse_text
  id ← req fields "id" parse_non_empty_text
  version ← req fields "version" parse_non_empty_text
  ok (record { id = id; version = version; calibration_digest = calibration })

unfoldable pub parse_candidate_review : Parse CandidateReview
unfolding parse_finding_at parse_reviewer_implementation_at parse_principal_ref_at
parse_candidate_review input = do
  fields ← read_fields input
  schema_version_1 fields
  id ← req fields "id" parse_durable_id
  candidate_id ← req fields "candidateId" parse_durable_id
  candidate_digest ← req fields "candidateDigest" parse_non_empty_text
  reviewer ← req fields "reviewer" parse_principal_ref_at
  attestation ← req fields "reviewerAttestationDigest" parse_non_empty_text
  implementation ← req fields "reviewerImplementation" parse_reviewer_implementation_at
  disposition ← req fields "disposition" (parse_one_of review_dispositions)
  findings ← req fields "findings" (parse_array_of parse_finding_at)
  reviewed_at ← req fields "reviewedAt" parse_non_empty_text
  ok (record {
    id = id;
    candidate_id = candidate_id;
    candidate_digest = candidate_digest;
    reviewer = reviewer;
    reviewer_attestation_digest = attestation;
    reviewer_implementation = implementation;
    disposition = disposition;
    findings = findings;
    reviewed_at = reviewed_at;
  })

unfoldable pub blocking_reasons : List ReviewFinding → List Diagnostic
blocking_reasons [] = []
blocking_reasons (finding ∷ findings) =
    let rest = blocking_reasons findings in
    if finding.severity == blocking
    then diagnostic "review.accept_with_blocking_finding" ∷ rest
    else rest

unfoldable pub review_invalid_reasons : CandidateReview → List Diagnostic
unfolding blocking_reasons
review_invalid_reasons review =
    if review.disposition == accept then blocking_reasons review.findings else []
