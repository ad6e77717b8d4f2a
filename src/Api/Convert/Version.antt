-- ===== src/Api/Convert/Version.antt =====
-- What becomes of the version of a request body, from app/api/routers/events.py to the stores.
use ai_risk_engine.Base.{String, ◌≡◌, refl, false, Option, some, arith, eq_iff}
use ai_risk_engine.Python.Text.{is_empty}
use ai_risk_engine.Python.Value.{Value, Fields, end, field, str, put, find}
use ai_risk_engine.Domain.Event.{base_of}
use ai_risk_engine.Api.Convert.{
  Draw, with_version, copied, or_none, base_event, request_to_risk_event,
  request_to_compliance_event,
}
use ai_risk_engine.Api.Routers.{EventBody, risk_body, compliance_body, to_event}
use ai_risk_engine.Infrastructure.RedisEvents.{stored_version, persisted_event}

unfoldable pub body_version : EventBody → String
body_version (risk_body req) = req.version
body_version (compliance_body req) = req.version

find-put : (k : String) (v : Value) (m : Fields) → find k (put k v m) ≡ some v
unfolding find put
find-put k v end = ground (arith, eq_iff k k)
find-put k v (field j w m) = ground (arith, find-put k v m, eq_iff j k)

or_none-stored_version :
    (m : Fields) (v : String) → find "version" m ≡ some (str v) → stored_version (or_none m) ≡ v
unfolding stored_version find
or_none-stored_version end v h = absurd (ground arith)
or_none-stored_version (field k w m) v h = ground arith

stored_version-with_version :
    (m : Option Fields) (v : String) → is_empty v ≡ false → stored_version (with_version m v) ≡ v
unfolding with_version
stored_version-with_version m v full = rw full (
    or_none-stored_version (put "version" (str v) (copied m)) v
      (find-put "version" (str v) (copied m)))

-- An event that is made of a body with a version that is not empty is stored under the tenant of
-- the request and not that of the body, and with the version of the body, whatever version the
-- metadata of the body names.
pub posted-version :
    (draw : Draw) (tenant_id correlation_id : String) (body : EventBody)
    → is_empty (body_version body) ≡ false
    → let stored = persisted_event (to_event draw tenant_id body) correlation_id in
      (stored.version ≡ body_version body)
      × (stored.tenant_id ≡ tenant_id)
      × (stored.event_id ≡ draw.event_id)
unfolding persisted_event to_event base_of request_to_risk_event request_to_compliance_event
    base_event body_version
posted-version draw t c (risk_body req) full =
    (stored_version-with_version req.metadata req.version full, refl, refl)
posted-version draw t c (compliance_body req) full =
    (stored_version-with_version req.metadata req.version full, refl, refl)
