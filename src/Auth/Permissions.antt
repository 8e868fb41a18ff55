-- ===== src/Auth/Permissions.antt =====
-- packages/auth/src/permissions.ts and authorize.ts. A role or a permission comes as an unknown
-- value: here as a text, or as none where the value is no text.
use forget_ops.Prelude.{
  Bool, List, Option, Outcome, String, [], contains, false, if◌then◌else◌, nat_strict, none, not,
  reject_if, some, string_strict, ◌==◌, ◌||◌, ◌∷◌,
}
use forget_ops.PrivacyRequest.Status.{status_strict}

abbrev pub roles : List String
roles = "owner" ∷ "admin" ∷ "reviewer" ∷ []

abbrev pub permissions : List String
permissions =
    "manage_billing" ∷ "manage_members" ∷ "pair_agent" ∷ "configure_connectors" ∷ "create_request"
    ∷ "approve_request" ∷ "change_execution_policy" ∷ "read_audit" ∷ []

abbrev pub admin_permissions : List String
admin_permissions =
    "configure_connectors" ∷ "create_request" ∷ "approve_request" ∷ "read_audit" ∷ []

abbrev pub reviewer_permissions : List String
reviewer_permissions = "approve_request" ∷ "read_audit" ∷ []

-- `rolePermissions[role]`; the role is one of the three.
abbrev pub role_permissions : String → List String
role_permissions role =
    if role == "owner"
    then permissions
    else if role == "admin"
    then admin_permissions
    else reviewer_permissions

abbrev pub is_role : Option String → Bool
is_role none = false
is_role (some value) = contains value roles

abbrev pub is_permission : Option String → Bool
is_permission none = false
is_permission (some value) = contains value permissions

abbrev pub has_permission : Option String → Option String → Bool
has_permission (some role) (some permission) = contains permission (role_permissions role)
has_permission _ _ = false

unfoldable pub can : Option String → Option String → Bool
can role permission =
    if not (is_role role) || not (is_permission permission)
    then false
    else has_permission role permission

pub record AuthorizationError : Type 0 where
  pub role : Option String
  pub permission : Option String

unfoldable pub authorize : Option String → Option String → Outcome AuthorizationError (Unit {0})
unfolding can
authorize role permission =
    reject_if (not (can role permission)) (record { role = role; permission = permission })

-- `allowed` is `{ allowed: true }`.
pub data AuthorizationResult : Type 0 where
  allowed : AuthorizationResult
  denied : AuthorizationError → AuthorizationResult

unfoldable pub check_authorization : Option String → Option String → AuthorizationResult
unfolding can
check_authorization role permission =
    if can role permission
    then allowed
    else denied (record { role = role; permission = permission })
