-- ===== src/Access.antt =====
-- src/etl_agent/api/auth_dependencies.py (membership and roles) and `validate_role_assignment` and
-- `add_project_member` of src/etl_agent/api/projects.py.
pub mod Duties
use etl_agent.Prelude.{
  by, ℕ, String, Bool, true, false, ◌&&◌, ◌||◌, not, Option, none, some, List, [], ◌∷◌, ◌++◌, map,
  ◌==◌, any, all, keep, find, if◌then◌else◌, is_some, insert, str_eq,
}
use etl_agent.Prelude.Result.{Result, ok, err, ◌>>=◌, ◌>>◌, guard, require}
use etl_agent.Api.{
  ApiError, api_error, Outcome, Body, run_handler, project_forbidden, role_forbidden, role_exists,
  role_conflict, user_not_found, role_slot_exists,
}
use etl_agent.Store.{
  Db, User, ProjectMembership, ProjectRoleGrant, ProjectRole, maker, checker_1, checker_2, operator,
  auditor,
}

abbrev pub role_eq : ProjectRole → ProjectRole → Bool
role_eq maker maker = true
role_eq checker_1 checker_1 = true
role_eq checker_2 checker_2 = true
role_eq operator operator = true
role_eq auditor auditor = true
role_eq _ _ = false

-- `ProjectRole(value)`
unfoldable pub parse_role : String → Option ProjectRole
parse_role s =
    if str_eq s "maker"
    then some maker
    else if str_eq s "checker_1"
    then some checker_1
    else if str_eq s "checker_2"
    then some checker_2
    else if str_eq s "operator"
    then some operator
    else if str_eq s "auditor"
    then some auditor
    else none

-- the role grants of a user in a project
unfoldable pub roles_of : ℕ → ℕ → List ProjectRoleGrant → List ProjectRole
roles_of project_id user_id grants =
    map (λ g. g.role) (keep (λ g. (g.project_id == project_id) && (g.user_id == user_id)) grants)

-- `roles & allowed_roles`
abbrev pub intersects : List ProjectRole → List ProjectRole → Bool
intersects roles allowed = any (λ r. any (role_eq r) allowed) roles

abbrev pub is_member : ℕ → ℕ → ProjectMembership → Bool
is_member project_id user_id m =
    (m.project_id == project_id) && (m.user_id == user_id) && m.is_active

module _ {F : Type 0} (db : Db F) where
  unfoldable pub require_project_membership : ℕ → ℕ → Result ApiError ProjectMembership
  require_project_membership project_id user_id =
      require (find (is_member project_id user_id) db.memberships) (api_error project_forbidden 403)

  unfoldable pub require_project_role :
      ℕ → ℕ → List ProjectRole → Result ApiError (List ProjectRole)
  require_project_role project_id user_id allowed = do
    m ← require_project_membership project_id user_id
    let roles = roles_of project_id user_id db.grants
    guard (intersects roles allowed) (api_error role_forbidden 403)
    ok roles

-- projects.py
abbrev pub checker_roles : List ProjectRole
checker_roles = checker_1 ∷ checker_2 ∷ []

abbrev pub execution_roles : List ProjectRole
execution_roles = maker ∷ operator ∷ []

unfoldable pub validate_role_assignment :
    List ProjectRole → ProjectRole → Result ApiError (Unit {0})
validate_role_assignment existing requested = do
  guard (not (any (role_eq requested) existing)) (api_error role_exists 409)
  guard (not (any (role_eq requested) checker_roles && intersects existing execution_roles))
      (api_error role_conflict 409)
  guard (not (any (role_eq requested) execution_roles && intersects existing checker_roles))
      (api_error role_conflict 409)

abbrev pub holds_slot : ℕ → ProjectRole → ProjectRoleGrant → Bool
holds_slot project_id role g = (g.project_id == project_id) && role_eq g.role role

abbrev pub belongs : ℕ → ℕ → ProjectMembership → Bool
belongs project_id user_id m = (m.project_id == project_id) && (m.user_id == user_id)

abbrev pub activate : ℕ → ℕ → ProjectMembership → ProjectMembership
activate project_id user_id m =
    if belongs project_id user_id m then record m { is_active = true } else m

-- the member's row is made active, or added
unfoldable pub enroll : ℕ → ℕ → List ProjectMembership → List ProjectMembership
enroll project_id user_id rows =
    if any (belongs project_id user_id) rows
    then map (activate project_id user_id) rows
    else insert (record { project_id = project_id; user_id = user_id; is_active = true }) rows

module _ {F : Type 0} (db : Db F) where
  -- a user's row that is active
  unfoldable pub active_user : ℕ → Option User
  active_user user_id = elim (by (λ u. u.id) user_id db.users) [
    | some u ↦ if u.is_active then some u else none
    | none ↦ none
  ]

  -- The unique constraint on (project, role) fails at the commit, which is then rolled back.
  unfoldable pub add_member_body : ℕ → ℕ → ℕ → ProjectRole → Body (Db F) ProjectRole
  add_member_body project_id current_user user_id role = do
    mine ← require_project_role db project_id current_user (operator ∷ [])
    user ← require (active_user user_id) (api_error user_not_found 404)
    validate_role_assignment (roles_of project_id user_id db.grants) role
    guard (not (any (holds_slot project_id role) db.grants)) (api_error role_slot_exists 409)
    ok (
      ok role,
      record db {
        memberships = enroll project_id user_id db.memberships;
        grants =
            insert (record { project_id = project_id; user_id = user_id; role = role }) db.grants;
      },
    )

  unfoldable pub add_project_member : ℕ → ℕ → ℕ → ProjectRole → Outcome (Db F) ProjectRole
  add_project_member project_id current_user user_id role =
      run_handler db (add_member_body project_id current_user user_id role)
