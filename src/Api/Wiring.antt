-- ===== src/Api/Wiring.antt =====
-- The event service as `get_event_service` of app/api/dependencies.py builds it: events and responses
-- in Redis, messages to RabbitMQ, and the trigger of app/workflows/dummy_workflow.py, which only logs.
-- One client serves events and responses, under keys that begin differently; here each has a state of
-- its own.
pub mod ReadBack
use ai_risk_engine.Base.{String}
use ai_risk_engine.Exec.{Result, Exec, pure}
use ai_risk_engine.Application.Service.{EventResponse, Services}
use ai_risk_engine.Infrastructure.Redis.{Redis, as_cache}
use ai_risk_engine.Infrastructure.RedisEvents.{Codec, as_repository}
use ai_risk_engine.Infrastructure.Publisher.{Amqp, Publisher, publish}

-- `DummyWorkflowTrigger.start`
unfoldable pub dummy_start : (event_id tenant_id : String) → Exec (Unit {0}) (Unit {0})
dummy_start event_id tenant_id = pure tt

-- `dump` and `parse` are `model_dump_json` and `model_validate_json` of a response.
unfoldable pub event_service :
    {D W C H X : Type 0}
    → Redis D
    → Codec
    → Amqp W C H X
    → (dump : EventResponse → String) → (parse : String → Result EventResponse)
    → Services D (Publisher W C H) (Unit {0}) D
unfolding dummy_start
event_service redis codec amqp dump parse = record {
  repository = as_repository redis codec;
  publish = publish amqp;
  start = dummy_start;
  cache = as_cache redis;
  dump = dump;
  parse = parse;
}
