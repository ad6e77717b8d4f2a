-- ===== src/Security/Rbac.antt =====
-- `RBACService` of app/security/rbac.py.
use ai_risk_engine.Base.{
  ℕ, String, Bool, true, false, ◌&&◌, Option, none, some, List, [], ◌∷◌, ◌==◌, str_eq,
  if◌then◌else◌,
}
use ai_risk_engine.Python.Text.{f_string}
use ai_risk_engine.Error.{error, authorization_error}
use ai_risk_engine.Exec.{Result, ok, err}

pub data Role : Type 0 where
  admin analyst approver viewer : Role

unfoldable pub role_value : Role → String
role_value admin = "ADMIN"
role_value analyst = "ANALYST"
role_value approver = "APPROVER"
role_value viewer = "VIEWER"

index : Role → ℕ
index admin = 0
index analyst = 1
index approver = 2
index viewer = 3

abbrev PermissionTable : Type 0
PermissionTable = List (Role × String × Bool)

-- `_ACTION_PERMISSIONS`
unfoldable pub action_permissions : PermissionTable
action_permissions =
    (admin, "create", true)
    ∷ (admin, "approve", true)
    ∷ (admin, "view", true)
    ∷ (admin, "register_model", true)
    ∷ (analyst, "create", true)
    ∷ (analyst, "approve", false)
    ∷ (analyst, "view", true)
    ∷ (analyst, "register_model", false)
    ∷ (approver, "create", false)
    ∷ (approver, "approve", true)
    ∷ (approver, "view", true)
    ∷ (approver, "register_model", false)
    ∷ (viewer, "create", false)
    ∷ (viewer, "approve", false)
    ∷ (viewer, "view", true)
    ∷ (viewer, "register_model", false)
    ∷ []

-- the entry of the key `(role, action)`
lookup_permission : Role → String → PermissionTable → Option Bool
lookup_permission role action [] = none
lookup_permission role action ((r, a, allowed) ∷ rest) =
    if index r == index role && str_eq a action
    then some allowed
    else lookup_permission role action rest

abbrev pub refusal_message : Role → String → String
refusal_message role action =
    f_string
      ("Role " ∷ role_value role ∷ " does not have permission for action '" ∷ action ∷ "'" ∷ [])

unfoldable pub check_permission : Role → String → Result (Unit {0})
unfolding action_permissions lookup_permission index
check_permission role action = elim (lookup_permission role action action_permissions) [
  | some true ↦ ok tt
  | _ ↦ err (error authorization_error (refusal_message role action))
]
