-- ===== src/Tests/Commit.antt =====
-- Runs of src/etl_agent/api/preparations.py: a commit, and a second one.
use etl_agent.Store.{PreparationStatus, operator}
use etl_agent.Capability.{
  action_claims, are_valid_claims, encode_part, issue_capability, issue_valid,
}
use etl_agent.Prelude.Sort.{distinct, sort_texts}
use etl_agent.Prelude.Result.{ok}
use etl_agent.Prelude.{[], ◌∷◌, by, true, refl, false, ◌≡◌, find}
use etl_agent.Tests.Data.{approved_tables, preparation_in, request_at, services}
use etl_agent.Commit.Idempotence.{commit_twice, commit_preparation-IsUnique, IsUnique}
use etl_agent.Access.{roles_of, require_project_membership, require_project_role}
use etl_agent.Commit.Safety.{commit_preparation-IsFreshCommit, IsFreshCommit}
use etl_agent.Commit.Handler.{
  submit_claims, issue_submit_token, create_execution, commit_approved, commit_current, commit_open,
  commit_body, fresh_response, commit_preparation,
}
use etl_agent.Commit.{
  idempotency_key_of, approvals_cover, policy_input_from_preparation, preparation_fingerprint,
  granted_profiles, has_all_profiles, check_version, CommitResponse,
}
use etl_agent.Prelude.Text.{is_space, lstrip, strip, codes, Text}

abbrev first_token : Text
first_token = codes "h.c.s"

abbrev first_response : CommitResponse
first_response =
    fresh_response services (request_at 1000) (preparation_in PreparationStatus.approved)
      (codes "key") first_token

-- the run itself
commits : (commit_preparation services 10 (request_at 1000) approved_tables).0 ≡ ok first_response
unfolding commit_preparation commit_body commit_open commit_current check_version has_all_profiles
    granted_profiles preparation_fingerprint sort_texts distinct policy_input_from_preparation
    approvals_cover idempotency_key_of commit_approved create_execution issue_submit_token
    submit_claims issue_valid issue_capability encode_part are_valid_claims action_claims
    require_project_role require_project_membership roles_of find by strip fresh_response lstrip
    is_space
commits = refl

first_is_fresh : first_response.idempotent ≡ false
unfolding fresh_response
first_is_fresh = refl

commit_preparation-IsFreshCommit_example :
    IsFreshCommit services 10
      (request_at 1000)
      approved_tables
      (commit_preparation services 10 (request_at 1000) approved_tables)
commit_preparation-IsFreshCommit_example =
    commit_preparation-IsFreshCommit services 10 (request_at 1000) approved_tables commits
      first_is_fresh

operator_allowed : require_project_role approved_tables 5 4 (operator ∷ []) ≡ ok (operator ∷ [])
unfolding require_project_role require_project_membership roles_of find
operator_allowed = refl

commit_twice_example :
    let after = (commit_preparation services 10 (request_at 1000) approved_tables).1 in
    commit_preparation services 10 (request_at 9000) after
    ≡ (ok (record first_response { idempotent = true }), after)
unfolding find by
commit_twice_example =
    commit_twice services 10 (request_at 1000) (request_at 9000) approved_tables commits
      first_is_fresh refl refl operator_allowed

commit_preparation-IsUnique_example :
    IsUnique (commit_preparation services 10 (request_at 1000) approved_tables).1.executions
commit_preparation-IsUnique_example =
    commit_preparation-IsUnique services 10 (request_at 1000) approved_tables tt
