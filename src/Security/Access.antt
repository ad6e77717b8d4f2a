-- ===== src/Security/Access.antt =====
-- Who may do what (app/security/rbac.py), and on whose data (app/security/tenant_context.py).
use ai_risk_engine.Base.{
  String, ◌≡◌, refl, ◌↔◌, ◌⊎◌, inl, inr, false, arith, eq_iff, str_eq, Bool-cases, sym,
}
use ai_risk_engine.Python.Text.{is_empty}
use ai_risk_engine.Error.{authorization_error}
use ai_risk_engine.Exec.{ok, Raises}
use ai_risk_engine.Security.Rbac.{
  Role, admin, analyst, approver, viewer, check_permission, refusal_message,
}
use ai_risk_engine.Security.TenantContext.{validate_access}

-- The permission matrix in the comment of rbac.py, by role.
abbrev pub Granted : Role → String → Type 0
Granted admin a = (a ≡ "create") ⊎ (a ≡ "approve") ⊎ (a ≡ "view") ⊎ (a ≡ "register_model")
Granted analyst a = (a ≡ "create") ⊎ (a ≡ "view")
Granted approver a = (a ≡ "approve") ⊎ (a ≡ "view")
Granted viewer a = a ≡ "view"

-- The actions that the matrix names, and the rest.
data Action (a : String) : Type 0 where
  create : a ≡ "create" → Action a
  approve : a ≡ "approve" → Action a
  view : a ≡ "view" → Action a
  register_model : a ≡ "register_model" → Action a
  unnamed :
      str_eq "create" a ≡ false
      → str_eq "approve" a ≡ false
      → str_eq "view" a ≡ false
      → str_eq "register_model" a ≡ false
      → Action a

is_action : (name a : String) → (a ≡ name) ⊎ (str_eq name a ≡ false)
is_action name a = elim (Bool-cases (str_eq name a)) [
  | inl e ↦ inl (sym ((eq_iff name a).0 e))
  | inr n ↦ inr n
]

classify : (a : String) → Action a
classify a = elim (is_action "create" a) [
  | inl e ↦ create e
  | inr n₁ ↦ elim (is_action "approve" a) [
    | inl e ↦ approve e
    | inr n₂ ↦ elim (is_action "view" a) [
      | inl e ↦ view e
      | inr n₃ ↦ elim (is_action "register_model" a) [
        | inl e ↦ register_model e
        | inr n₄ ↦ unnamed n₁ n₂ n₃ n₄
      ]
    ]
  ]
]

Granted-checks : (role : Role) (a : String) → Granted role a → check_permission role a ≡ ok tt
unfolding check_permission
Granted-checks admin a (inl e) = rw e
Granted-checks admin a (inr (inl e)) = rw e
Granted-checks admin a (inr (inr (inl e))) = rw e
Granted-checks admin a (inr (inr (inr e))) = rw e
Granted-checks analyst a (inl e) = rw e
Granted-checks analyst a (inr e) = rw e
Granted-checks approver a (inl e) = rw e
Granted-checks approver a (inr e) = rw e
Granted-checks viewer a e = rw e

-- What the check of an action that the matrix names gives, for the roles that lack it.
abbrev Refused : Role → String → Type 0
Refused role a = Raises (check_permission role a) authorization_error

check_permission_cases : (role : Role) (a : String) → Action a → Granted role a ⊎ Refused role a
unfolding check_permission
check_permission_cases admin a (create e) = inl (inl e)
check_permission_cases admin a (approve e) = inl (inr (inl e))
check_permission_cases admin a (view e) = inl (inr (inr (inl e)))
check_permission_cases admin a (register_model e) = inl (inr (inr (inr e)))
check_permission_cases analyst a (create e) = inl (inl e)
check_permission_cases analyst a (view e) = inl (inr e)
check_permission_cases approver a (approve e) = inl (inl e)
check_permission_cases approver a (view e) = inl (inr e)
check_permission_cases viewer a (view e) = inl e
check_permission_cases _ a (create e) = inr (rw e (_, refl))
check_permission_cases _ a (approve e) = inr (rw e (_, refl))
check_permission_cases _ a (register_model e) = inr (rw e (_, refl))
check_permission_cases role a (unnamed n₁ n₂ n₃ n₄) = inr (refusal_message role a, ground arith)

-- A role may do an action exactly if the permission matrix grants it. Otherwise the check raises
-- `AuthorizationError`, also for an action that the matrix does not name.
pub check_permission_outcome :
    (role : Role) (action : String)
    → (Granted role action × (check_permission role action ≡ ok tt))
      ⊎ (¬ (Granted role action) × Raises (check_permission role action) authorization_error)
check_permission_outcome role action = elim (check_permission_cases role action (classify action)) [
  | inl g ↦ inl (g, Granted-checks role action g)
  | inr (m, r) ↦ inr (λ g. cc (r, Granted-checks role action g), (m, r))
]

-- Access passes exactly for the resource's own tenant, and never for an empty one.
pub validate_access_iff :
    (resource request : String)
    → (validate_access resource request ≡ ok tt)
      ↔ ((resource ≡ request) × (is_empty resource ≡ false))
unfolding validate_access
validate_access_iff resource request =
    (λ h. ground (arith, eq_iff resource request), λ h. ground (arith, eq_iff resource request))
