-- ===== src/Security/TenantContext.antt =====
-- `TenantContext` of app/security/tenant_context.py.
use ai_risk_engine.Base.{String, ◌||◌, not, [], ◌∷◌, str_eq, if◌then◌else◌}
use ai_risk_engine.Python.Text.{f_string, is_empty}
use ai_risk_engine.Error.{error, tenant_isolation_error}
use ai_risk_engine.Exec.{Result, ok, err}

unfoldable pub validate_access : String → String → Result (Unit {0})
validate_access resource_tenant request_tenant =
    if is_empty resource_tenant || is_empty request_tenant
    then err (
        error tenant_isolation_error
          "Tenant isolation: resource_tenant and request_tenant must be non-empty")
    else if not (str_eq resource_tenant request_tenant)
    then err (
        error tenant_isolation_error (
          f_string (
            "Tenant isolation: access denied. Resource tenant '" ∷ resource_tenant
            ∷ "' does not match request tenant '" ∷ request_tenant ∷ "'" ∷ [])))
    else ok tt
