-- ===== src/Application/Service/Fresh.antt =====
-- What a creation of app/application/event_service.py that found nothing cached has stored.
use ai_risk_engine.Base.{◌≡◌, inl, inr, none, arith}
use ai_risk_engine.Exec.{ok, Result-cases}
use ai_risk_engine.Application.Service.{
  PersistedEvent, EventResponse, persisted_to_response, publication, Systems, Services, Creation,
  cache_key, save_event, publish_event, start_workflow, cache_response, create_fresh, create_event,
}

module _ {R Q T K : Type 0} (services : Services R Q T K) where
  -- The event that was saved, and that the response and the store are those of this save.
  pub record IsSaved (c : Creation) (s s' : Systems R Q T K) (r : EventResponse) : Type 0 where
    pub persisted : PersistedEvent
    pub saved : (services.repository.save c.event c.correlation_id s.repository).0 ≡ ok persisted
    pub response : persisted_to_response persisted ≡ ok r
    pub repository :
        s'.repository ≡ (services.repository.save c.event c.correlation_id s.repository).1

  pub create_event-IsSaved :
      (c : Creation) (s s' : Systems R Q T K) (r : EventResponse)
      → services.cache.get_cache (cache_key services c) s.cache ≡ ok none
      → create_event services c s ≡ (ok r, s')
      → IsSaved c s s' r
  unfolding create_event create_fresh save_event publish_event start_workflow cache_response
  create_event-IsSaved c s s' r missing made =
      elim (Result-cases (services.repository.save c.event c.correlation_id s.repository).0) [
        | inr (e, failed) ↦ absurd (ground arith)
        | inl (p, saved) ↦
            let message = publication c.event p c.correlation_id c.idempotency_key in
            elim (Result-cases (services.publish message s.broker).0) [
              | inr (e, failed) ↦ absurd (ground arith)
              | inl (_, published) ↦ elim (Result-cases (persisted_to_response p)) [
                | inr (e, failed) ↦ absurd (ground arith)
                | inl (out, responds) ↦ elim (Result-cases (cache_response services c out s).0) [
                  | inr (e, failed) ↦ absurd (ground arith)
                  | inl (_, kept) ↦ record {
                    persisted = p;
                    saved = saved;
                    response = ground arith;
                    repository = ground arith;
                  }
                ]
              ]
            ]
      ]
