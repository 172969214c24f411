-- ===== src/Tests/Data.antt =====
-- Sample rows, keys and requests.
use etl_agent.Domain.{default_budget}
use etl_agent.Policy.{DataClassification, etl_execute, p2}
use etl_agent.Store.{
  operator, checker_2, checker_1, maker, reject, approve, ApprovalStatus, ProjectRoleGrant,
  ApprovalRequest, Preparation, PipelineVersionStatus, MetadataProfile, User, ProjectMembership,
  ProjectRole, Db, PreparationStatus, PreparationFacts, PipelineVersion,
}
use etl_agent.Services.{Request, Services}
use etl_agent.Ledger.{Hasher}
use etl_agent.Prelude.Text.{text_eq, codes, Text}
use etl_agent.Capability.{
  not_object, capability_header, other_object, claims, header, Codec, Part, CapabilityClaims,
}
use etl_agent.Prelude.{◌+◌, none, true, [], if◌then◌else◌, ◌∷◌, List, some, Option, ℕ, String}
use etl_agent.Float.{Ratio, ratio_ops}

abbrev pub sha : String
sha = "0123456789abcdef0123456789abcdef0123456789abcdef0123456789abcdef"

abbrev pub sample_claims : CapabilityClaims
sample_claims = record {
  jti = 90;
  subject = 1;
  tool = "seatunnel.submit";
  environment = codes "staging";
  preparation_id = 10;
  artifact_digest = sha;
  issued_at = 1000;
  expires_at = 1300;
}

-- A codec that knows the header and the sample claims, writes them as one letter, and signs with
-- the letter s.
abbrev pub dumps_sample : Part → Text
dumps_sample (header _ _ _) = codes "h"
dumps_sample (claims _) = codes "c"
dumps_sample (other_object t) = t
dumps_sample (not_object t) = t

abbrev pub loads_sample : Text → Option Part
loads_sample t =
    if text_eq t (codes "h")
    then some capability_header
    else if text_eq t (codes "c")
    then some (claims sample_claims)
    else none

abbrev pub sample_codec : Codec (Unit {0}) (Unit {0})
sample_codec = record {
  dumps = dumps_sample;
  loads = loads_sample;
  b64encode = λ t. t;
  b64decode = λ t. some t;
  sign = λ _ _. codes "s";
  verify = λ _ signature _. text_eq signature (codes "s");
}

abbrev pub sample_hasher : Hasher
sample_hasher = record {
  digest_payload = λ _. codes "p";
  digest_event = λ e. codes "e";
  genesis_hash = codes "0";
}

abbrev pub services : Services Ratio (Unit {0}) (Unit {0})
services = record {
  codec = sample_codec;
  hasher = sample_hasher;
  sha256_hex = λ t. t;
  fingerprint_digest = λ _ _ _. codes "f";
  uuid_text = λ n. n ∷ [];
  json_texts = λ ts. [];
  private_key = some tt;
  capability_ttl_seconds = 300;
  preparation_ttl_seconds = 3600;
}

-- maker 1, checkers 2 and 3, operator 4, all members of project 5
abbrev pub grant_of : ℕ → ProjectRole → ProjectRoleGrant
grant_of user role = record { project_id = 5; user_id = user; role = role }

abbrev pub member_of : ℕ → ProjectMembership
member_of user = record { project_id = 5; user_id = user; is_active = true }

abbrev pub user_of : ℕ → User
user_of user = record { id = user; is_active = true }

abbrev pub profile_of : ℕ → MetadataProfile
profile_of id = record { id = id; connection_id = 30; project_id = 5; fingerprint = codes "x" }

abbrev pub sample_version : PipelineVersion Ratio
sample_version = record {
  id = 7;
  pipeline_id = 6;
  status = PipelineVersionStatus.ready;
  immutable = true;
  artifact_digest = some sha;
  hocon = codes "env {}";
  source_profile_ids = 20 ∷ [];
  target_profile_ids = 21 ∷ [];
  quality_contract = none;
}

abbrev pub sample_facts : PreparationFacts Ratio
sample_facts = record {
  tool_intent = etl_execute;
  environment = codes "staging";
  data_classification = DataClassification.confidential;
  writes_target = true;
  risk_level = p2;
  policy_version = "v1";
  required_roles = "checker_1" ∷ "checker_2" ∷ [];
  runtime_budget = default_budget;
  input_fingerprint = codes "f";
  pdp_reasons = [];
}

abbrev pub preparation_in : PreparationStatus → Preparation Ratio
preparation_in status = record {
  id = 10;
  project_id = 5;
  pipeline_version_id = 7;
  created_by = 1;
  status = status;
  risk_level = p2;
  policy_version = "v1";
  input_fingerprint = codes "f";
  required_roles = "checker_1" ∷ "checker_2" ∷ [];
  resource_scope = [];
  runtime_budget = default_budget;
  facts = sample_facts;
  expires_at = 5000;
}

abbrev pub open_slot : ℕ → String → ApprovalRequest
open_slot id role = record {
  id = id;
  project_id = 5;
  preparation_id = 10;
  required_role = role;
  status = ApprovalStatus.pending;
  decision = none;
  approver_id = none;
  comment = none;
  decided_at = none;
}

abbrev pub approved_slot : ℕ → String → ℕ → ApprovalRequest
approved_slot id role user = record (open_slot id role) {
  status = ApprovalStatus.approved;
  decision = some approve;
  approver_id = some user;
}

abbrev pub rejected_slot : ℕ → String → ℕ → ApprovalRequest
rejected_slot id role user = record (open_slot id role) {
  status = ApprovalStatus.rejected;
  decision = some reject;
  approver_id = some user;
}

abbrev pub tables : PreparationStatus → List ApprovalRequest → Db Ratio
tables status slots = record {
  users = user_of 1 ∷ user_of 2 ∷ user_of 3 ∷ user_of 4 ∷ user_of 8 ∷ [];
  memberships = member_of 1 ∷ member_of 2 ∷ member_of 3 ∷ member_of 4 ∷ [];
  grants =
      grant_of 1 maker ∷ grant_of 2 checker_1 ∷ grant_of 3 checker_2 ∷ grant_of 4 operator ∷ [];
  pipelines = record { id = 6; project_id = 5 } ∷ [];
  versions = sample_version ∷ [];
  profiles = profile_of 20 ∷ profile_of 21 ∷ [];
  preparations = preparation_in status ∷ [];
  approvals = slots;
  executions = [];
  outbox = [];
  ledger = [];
}

abbrev pub approved_tables : Db Ratio
approved_tables =
    tables PreparationStatus.approved
      (approved_slot 11 "checker_1" 2 ∷ approved_slot 12 "checker_2" 3 ∷ [])

abbrev pub request_at : ℕ → Request
request_at now = record {
  user = 4;
  now = now;
  correlation_id = "r";
  idempotency_key = codes "key";
  fresh_execution = 50;
  fresh_event = 60;
  fresh_jti = 70;
  fresh_suffix = 80;
  fresh_preparation = 10;
  fresh_slot = λ n. 11 + n;
}
