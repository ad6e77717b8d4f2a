-- ===== src/Infrastructure/Publisher.antt =====
-- `RabbitMQPublisher` of app/infrastructure/messaging/rabbitmq_publisher.py. The client library of the
-- broker and the JSON of a message are a parameter.
use ai_risk_engine.Base.{ℕ, String, Option, none, some}
use ai_risk_engine.Exec.{Result, ok, Exec, lift, pure, modify, ◌>>=◌, ◌>>◌}
use ai_risk_engine.Application.Service.{Publication}

-- `aio_pika.Message`; delivery is persistent.
pub record Message : Type 0 where
  pub body : String
  pub idempotency_key : String

-- Connections `C`, channels `H` and exchanges `X` of a broker `W`. `body` is `json.dumps` of the
-- message's fields.
pub record Amqp (W C H X : Type 0) : Type 0 where
  pub connect_robust : Exec W C
  pub channel : C → Exec W H
  pub set_qos : H → (prefetch_count : ℕ) → Exec W (Unit {0})
  pub declare_exchange : H → (exchange_name : String) → Exec W X
  pub send : X → Message → (routing_key : String) → Exec W (Unit {0})
  pub body : Publication → Result String

pub record Publisher (W C H : Type 0) : Type 0 where
  pub broker : W
  pub connection : Option C
  pub channel : Option H

module _ {W C H X : Type 0} (amqp : Amqp W C H X) where
  -- a call of the library
  abbrev call : {A : Type 0} → Exec W A → Exec (Publisher W C H) A
  call m s = let (r, broker) = m s.broker in (r, record s { broker = broker })

  -- The channel stays set if `set_qos` raises.
  unfoldable pub connect : Exec (Publisher W C H) H
  connect = do
    connection ← call amqp.connect_robust
    modify (λ s. record s { connection = some connection })
    channel ← call (amqp.channel connection)
    modify (λ s. record s { channel = some channel })
    call (amqp.set_qos channel 10)
    pure channel

  unfoldable pub ensure_channel : Exec (Publisher W C H) H
  unfolding connect
  ensure_channel s = elim s.channel [ none ↦ connect s | some h ↦ (ok h, s) ]

  unfoldable pub publish : Publication → Exec (Publisher W C H) (Unit {0})
  unfolding ensure_channel
  publish p = do
    channel ← ensure_channel
    exchange ← call (amqp.declare_exchange channel p.exchange)
    body ← lift (amqp.body p)
    call (
        amqp.send exchange (record { body = body; idempotency_key = p.idempotency_key })
          p.routing_key)
