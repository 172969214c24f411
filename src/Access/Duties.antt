-- ===== src/Access/Duties.antt =====
-- Separation of duties: nobody is both a checker and a maker or operator of a project.
use etl_agent.Prelude.{
  ℕ, ◌≡◌, Bool, true, false, ◌&&◌, ◌||◌, not, List, [], ◌∷◌, ◌++◌, any, ◌==◌, if◌then◌else◌, arith,
  insert,
}
use etl_agent.Prelude.Result.{ok}
use etl_agent.Api.{run_handler-cases, Outcome}
use etl_agent.Store.{Db, ProjectRoleGrant, ProjectRole}
use etl_agent.Access.{
  holds_slot, role_eq, roles_of, intersects, checker_roles, execution_roles,
  validate_role_assignment, add_member_body, add_project_member,
}

-- no role of a checker beside a role that makes or executes
abbrev pub is_separated : List ProjectRole → Bool
is_separated roles = not (intersects roles checker_roles && intersects roles execution_roles)

abbrev pub IsSeparated : List ProjectRoleGrant → Type 0
IsSeparated grants =
    (project_id user_id : ℕ) → is_separated (roles_of project_id user_id grants) ≡ true

intersects-snoc :
    (roles : List ProjectRole) (r : ProjectRole) (allowed : List ProjectRole)
    → intersects (roles ++ r ∷ []) allowed ≡ (intersects roles allowed || any (role_eq r) allowed)
intersects-snoc [] r allowed = ground arith
intersects-snoc (x ∷ roles) r allowed = ground (arith, intersects-snoc roles r allowed)

roles_of-insert :
    (project_id user_id : ℕ) (g : ProjectRoleGrant) (grants : List ProjectRoleGrant)
    → roles_of project_id user_id (insert g grants) ≡ (
        if (g.project_id == project_id) && (g.user_id == user_id)
        then roles_of project_id user_id grants ++ g.role ∷ []
        else roles_of project_id user_id grants)
unfolding roles_of insert
roles_of-insert project_id user_id g [] = ground arith
roles_of-insert project_id user_id g (x ∷ grants) =
    ground (arith, roles_of-insert project_id user_id g grants)

-- An assignment that passes the validation keeps a user's roles separated.
validated-separated :
    (existing : List ProjectRole) (role : ProjectRole)
    → is_separated existing ≡ true
    → validate_role_assignment existing role ≡ ok tt
    → is_separated (existing ++ role ∷ []) ≡ true
unfolding validate_role_assignment
validated-separated existing role sep valid = ground (
  arith,
  intersects-snoc existing role checker_roles,
  intersects-snoc existing role execution_roles,
)

module _ {F : Type 0} (db : Db F) where
  abbrev new_grant : ℕ → ℕ → ProjectRole → ProjectRoleGrant
  new_grant project_id user_id role = record {
    project_id = project_id;
    user_id = user_id;
    role = role;
  }

  -- a body that ended has validated the role and granted it, and nothing else
  granted :
      (project_id current_user user_id : ℕ) (role : ProjectRole) (o : Outcome (Db F) ProjectRole)
      → add_member_body db project_id current_user user_id role ≡ ok o
      → (validate_role_assignment (roles_of project_id user_id db.grants) role ≡ ok tt)
        × (o.1.grants ≡ insert (new_grant project_id user_id role) db.grants)
        × (any (holds_slot project_id role) db.grants ≡ false)
  unfolding add_member_body
  granted project_id current_user user_id role o h = ground arith

  -- Adding a member, whatever the outcome, keeps the duties of every user in every project
  -- separated.
  pub add_project_member-IsSeparated :
      (project_id current_user user_id : ℕ) (role : ProjectRole)
      → IsSeparated db.grants
      → IsSeparated (add_project_member db project_id current_user user_id role).1.grants
  unfolding add_project_member
  add_project_member-IsSeparated project_id current_user user_id role sep p u =
      run_handler-cases
        (λ (o : Outcome (Db F) ProjectRole). is_separated (roles_of p u o.1.grants) ≡ true) db
        (add_member_body db project_id current_user user_id role) (λ e. sep p u)
        λ o done.
          let (valid, added, free) = granted project_id current_user user_id role o done in
          rw (added, roles_of-insert p u (new_grant project_id user_id role) db.grants)
            (ground (
              arith,
              validated-separated (roles_of project_id user_id db.grants) role
                  (sep project_id user_id) valid,
              sep p u,
            ))
