-- ===== src/Application/Service/Created.antt =====
-- What `create_event` of app/application/event_service.py promises.
use ai_risk_engine.Base.{String, ◌≡◌, refl, ap, inl, inr, false, none, some, arith, Bool-cases}
use ai_risk_engine.Python.Text.{is_empty}
use ai_risk_engine.Error.{Error}
use ai_risk_engine.Exec.{
  Result, ok, err, Exec, Result-cases, Leaves, bind-Leaves, lift, pure, ◌>>=◌, ◌>>◌,
}
use ai_risk_engine.Application.Service.{
  PersistedEvent, EventResponse, persisted_to_response, publication, Systems, Services, Creation,
  cache_key, publish_failed, save_event, publish_event, start_workflow, cache_response,
  create_fresh, create_event,
}

module _ {R Q T K : Type 0} (services : Services R Q T K) where
  cache_response-found :
      (c : Creation) (r : EventResponse) (s : Systems R Q T K)
      → (cache_response services c r s).0 ≡ ok tt
      → services.cache.get_cache (cache_key services c) (cache_response services c r s).1.cache
        ≡ ok (some (services.dump r))
  unfolding cache_response
  cache_response-found c r s saved = services.cache.set_ok _ _ _ s.cache saved

  cache_last :
      (c : Creation) (response r : EventResponse)
      → Leaves r
          (λ s.
            services.cache.get_cache (cache_key services c) s.cache ≡ ok (some (services.dump r)))
          (cache_response services c response >> pure response)
  cache_last c response r s h = elim (Result-cases (cache_response services c response s).0) [
    | inr (e, failed) ↦ absurd (ground arith)
    | inl (_, saved) ↦
        let left : (cache_response services c response >> pure response) s
            ≡ (ok response, (cache_response services c response s).1) =
          ground arith in
        let same : response ≡ r = ground arith in
        rw (left, ← same) (cache_response-found c response s saved)
  ]

  create_fresh-caches :
      (c : Creation) (r : EventResponse)
      → Leaves r
          (λ s.
            services.cache.get_cache (cache_key services c) s.cache ≡ ok (some (services.dump r)))
          (create_fresh services c)
  unfolding create_fresh
  create_fresh-caches c r =
      let Q' : Systems R Q T K → Type 0 = λ s.
        services.cache.get_cache (cache_key services c) s.cache ≡ ok (some (services.dump r)) in
      let caching : EventResponse → Exec (Systems R Q T K) EventResponse =
        λ out. cache_response services c out >> pure out in
      let responding : PersistedEvent → Exec (Systems R Q T K) EventResponse =
        λ p. lift (persisted_to_response p) >>= caching in
      let starting : PersistedEvent → Exec (Systems R Q T K) EventResponse =
        λ p. start_workflow services p >> responding p in
      let publishing : PersistedEvent → Exec (Systems R Q T K) EventResponse =
        λ p. publish_event services c p >> starting p in
      bind-Leaves r Q' (save_event services c) publishing (λ p.
        bind-Leaves r Q' (publish_event services c p) (λ _. starting p)
          (λ _.
            bind-Leaves r Q' (start_workflow services p) (λ _. responding p)
              (λ _.
                bind-Leaves r Q' (lift (persisted_to_response p)) caching
                  (λ out. cache_last c out r))))

  -- Once a creation that found nothing cached has returned a response whose JSON is not empty and gives it back, every
  -- later call of the same tenant with the same idempotency key, for whatever event, returns this
  -- response as long as it is cached, and changes nothing: no event is stored or published, and no
  -- workflow is started.
  pub create_event-idempotent :
      (c later : Creation) (s s' : Systems R Q T K) (r : EventResponse)
      → services.cache.get_cache (cache_key services c) s.cache ≡ ok none
      → create_event services c s ≡ (ok r, s')
      → services.parse (services.dump r) ≡ ok r
      → is_empty (services.dump r) ≡ false
      → later.tenant_id ≡ c.tenant_id
      → later.idempotency_key ≡ c.idempotency_key
      → create_event services later s' ≡ (ok r, s')
  unfolding create_event
  create_event-idempotent c later s s' r missing first json visible tenant key =
      let body : create_fresh services c s ≡ (ok r, s') = rw (missing, create_event) at first in
      let stored = create_fresh-caches c r s (ap (λ x. x.0) body) in
      let found : services.cache.get_cache (cache_key services later) s'.cache
          ≡ ok (some (services.dump r)) =
        rw (tenant, key) (rw body at stored) in
      rw (found, create_event, visible, json) refl

  -- the same result and the same systems but for the workflows
  abbrev SameButWorkflows :
      Result EventResponse × Systems R Q T K → Result EventResponse × Systems R Q T K → Type 0
  SameButWorkflows x y =
      (x.0 ≡ y.0)
      × (x.1.repository ≡ y.1.repository)
      × (x.1.broker ≡ y.1.broker)
      × (x.1.cache ≡ y.1.cache)

  create_fresh-SameButWorkflows :
      (start : (event_id tenant_id : String) → Exec T (Unit {0})) (c : Creation)
      (s : Systems R Q T K)
      → SameButWorkflows
          (create_fresh (record services { start = start }) c s)
          (create_fresh services c s)
  unfolding create_fresh save_event publish_event start_workflow cache_response
  create_fresh-SameButWorkflows start c s =
      elim (Result-cases (services.repository.save c.event c.correlation_id s.repository).0) [
        | inr (e, failed) ↦ (ground arith, ground arith, ground arith, ground arith)
        | inl (p, saved) ↦
            let message = publication c.event p c.correlation_id c.idempotency_key in
            elim (Result-cases (services.publish message s.broker).0) [
              | inr (e, failed) ↦ (ground arith, ground arith, ground arith, ground arith)
              | inl (_, published) ↦ elim (Result-cases (persisted_to_response p)) [
                | inr (e, failed) ↦ (ground arith, ground arith, ground arith, ground arith)
                | inl (out, responds) ↦ elim (Result-cases (cache_response services c out s).0) [
                  | inr (e, failed) ↦ (ground arith, ground arith, ground arith, ground arith)
                  | inl (_, kept) ↦ (ground arith, ground arith, ground arith, ground arith)
                ]
              ]
            ]
      ]

  -- Whatever the workflow trigger does, also where it raises, a creation has the same result and
  -- leaves the same stored events, published messages and cached responses.
  pub create_event-ignores_trigger :
      (start : (event_id tenant_id : String) → Exec T (Unit {0})) (c : Creation)
      (s : Systems R Q T K)
      → let other = record services { start = start } in
        ((create_event other c s).0 ≡ (create_event services c s).0)
        × ((create_event other c s).1.repository ≡ (create_event services c s).1.repository)
        × ((create_event other c s).1.broker ≡ (create_event services c s).1.broker)
        × ((create_event other c s).1.cache ≡ (create_event services c s).1.cache)
  unfolding create_event
  create_event-ignores_trigger start c s =
      let fresh = create_fresh-SameButWorkflows start c s in
      elim (Result-cases (services.cache.get_cache (cache_key services c) s.cache)) [
        | inr (e, failed) ↦ rw (failed, create_event) (refl, refl, refl, refl)
        | inl (none, missing) ↦ rw (missing, create_event) fresh
        | inl (some cached, hit) ↦ elim (Bool-cases (is_empty cached)) [
          | inl empty ↦ rw (hit, create_event, empty) fresh
          | inr visible ↦ rw (hit, create_event, visible) (refl, refl, refl, refl)
        ]
      ]

  -- Where the event has been stored but the publisher raises, a creation that found nothing cached
  -- raises `MessagingFailureError` with the publisher's message. The event stays stored, no workflow
  -- is started and nothing is cached, so that the same request will be tried anew.
  pub create_event-unpublished :
      (c : Creation) (s : Systems R Q T K) (p : PersistedEvent) (e : Error)
      → services.cache.get_cache (cache_key services c) s.cache ≡ ok none
      → (services.repository.save c.event c.correlation_id s.repository).0 ≡ ok p
      → (services.publish (publication c.event p c.correlation_id c.idempotency_key) s.broker).0
        ≡ err e
      → ((create_event services c s).0 ≡ err (publish_failed services e))
        × ((create_event services c s).1.repository
            ≡ (services.repository.save c.event c.correlation_id s.repository).1)
        × ((create_event services c s).1.workflows ≡ s.workflows)
        × ((create_event services c s).1.cache ≡ s.cache)
  unfolding create_event create_fresh save_event publish_event
  create_event-unpublished c s p e missing saved failed =
      (ground arith, ground arith, ground arith, ground arith)
