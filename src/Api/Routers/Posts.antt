-- ===== src/Api/Routers/Posts.antt =====
-- What a POST to app/api/routers is answered with, from the request to the event service and back.
use ai_risk_engine.Base.{
  String, ◌≡◌, refl, ap, ◌↔◌, inl, inr, Bool, true, false, Option, none, some, arith, Option-cases,
  ◌==◌,
}
use ai_risk_engine.Python.Float.{Float}
use ai_risk_engine.Python.Text.{is_empty}
use ai_risk_engine.Error.{ErrorClass, Error, error, base, domain_error}
use ai_risk_engine.Exec.{Result, ok, Result-cases}
use ai_risk_engine.Application.Service.{
  EventResponse, Systems, Services, Creation, create_event, idempotency_cache_key,
}
use ai_risk_engine.Application.Service.Created.{create_event-idempotent}
use ai_risk_engine.Api.Http.{
  text, HttpResponse, Request, given, get_tenant_id, get_correlation_id, reply,
}
use ai_risk_engine.Api.Convert.{Draw}
use ai_risk_engine.Api.Routers.{
  EventBody, validate_body, answer, creation, submit, post_keyed, post_event,
}
use ai_risk_engine.Api.App.{handled, handler_status, Server, serve}
use ai_risk_engine.Api.App.Served.{caught-eq-handled, attached, marked, serve-eq-outcome}

-- whether an answer, if there is one, has the status 200
is_ok : Option HttpResponse → Bool
is_ok none = false
is_ok (some response) = response.status_code == 200

handled_class-is_ok : (c : ErrorClass) (m : String) → is_ok (handled (error c m)) ≡ false
unfolding handled handler_status base is_ok
handled_class-is_ok domain_error m = refl
handled_class-is_ok _ m = refl

handled-is_ok : (e : Error) → is_ok (handled e) ≡ false
handled-is_ok e = handled_class-is_ok e.class e.message

module _ {R Q T K : Type 0} (services : Services R Q T K) (show : Float → String) where
  -- The creation that a POST asks the service for.
  abbrev pub asked : String → Draw → EventBody → Request → String → String → Creation
  asked fresh draw body request t k =
      creation services show draw t k (get_correlation_id (attached fresh request t)) body

  abbrev pub post :
      String
      → Draw
      → EventBody
      → Request
      → Server (Systems R Q T K)
      → HttpResponse × Server (Systems R Q T K)
  post fresh draw body request = serve fresh (post_event services show draw body) request

  -- A POST that names a tenant and a key, and whose body is valid.
  pub record IsSound (body : EventBody) (request : Request) (t k : String) : Type 0 where
    pub tenant : given request.tenant_header ≡ some t
    pub key : given request.idempotency_header ≡ some k
    pub valid : validate_body show body ≡ ok tt

  pub sound_post :
      (fresh : String) (draw : Draw) (body : EventBody) (request : Request) (t k : String)
      (r : EventResponse) (s : Server (Systems R Q T K))
      → IsSound body request t k
      → (create_event services (asked fresh draw body request t k) s.systems).0 ≡ ok r
      → ((post fresh draw body request s).0 ≡ marked fresh request (reply (text (services.dump r))))
        × ((post fresh draw body request s).1.systems
            ≡ (create_event services (asked fresh draw body request t k) s.systems).1)
  unfolding post_event post_keyed submit answer get_tenant_id
  sound_post fresh draw body request t k r s sound created =
      let tenant = sound.tenant in
      let key = sound.key in
      let valid = sound.valid in
      rw (serve-eq-outcome fresh (post_event services show draw body) request s)
        (ground arith, ground arith)

  -- What a POST that is answered with 200 came from.
  pub record IsCreated (fresh : String) (draw : Draw) (body : EventBody) (request : Request)
      (s : Server (Systems R Q T K)) : Type 0 where
    pub t : String
    pub k : String
    pub sound : IsSound body request t k
    pub response : EventResponse
    pub created :
        (create_event services (asked fresh draw body request t k) s.systems).0 ≡ ok response

  pub post_ok-IsCreated :
      (fresh : String) (draw : Draw) (body : EventBody) (request : Request)
      (s : Server (Systems R Q T K))
      → ((post fresh draw body request s).0.status_code == 200) ≡ true
      → IsCreated fresh draw body request s
  unfolding post_event post_keyed submit answer get_tenant_id is_ok
  post_ok-IsCreated fresh draw body request s h =
      let h' = rw (serve-eq-outcome fresh (post_event services show draw body) request s) at h in
      elim (Option-cases (given request.tenant_header)) [
        | inl missing ↦ absurd (ground arith)
        | inr (t, tenant) ↦ elim (Option-cases (given request.idempotency_header)) [
          | inl missing ↦ absurd (ground arith)
          | inr (k, key) ↦ elim (Result-cases (validate_body show body)) [
            | inr (e, invalid) ↦
                let never = handled-is_ok e in
                elim (Option-cases (handled e)) [
                  | inl unexpected ↦ absurd (ground arith)
                  | inr (response, answered) ↦ absurd (ground arith)
                ]
            | inl (_, valid) ↦
                elim (Result-cases
                  (create_event services (asked fresh draw body request t k) s.systems).0) [
                    | inl (r, made) ↦ record {
                      t = t;
                      k = k;
                      sound = record { tenant = tenant; key = key; valid = valid };
                      response = r;
                      created = made;
                    }
                    | inr (e, failed) ↦
                        let never = handled-is_ok e in
                        let same = caught-eq-handled e in
                        elim (Option-cases (handled e)) [
                          | inl unexpected ↦ absurd (ground arith)
                          | inr (response, answered) ↦ absurd (ground arith)
                        ]
                  ]
          ]
        ]
      ]

  -- A POST is answered with the status 200 exactly if it names a tenant and an idempotency key that
  -- are not blank, its body is valid, and the event service returns a response to the creation that
  -- these stand for.
  pub post_ok_iff :
      (fresh : String) (draw : Draw) (body : EventBody) (request : Request)
      (s : Server (Systems R Q T K))
      → ((post fresh draw body request s).0.status_code ≡ 200) ↔ IsCreated fresh draw body request s
  post_ok_iff fresh draw body request s = (
    λ h. post_ok-IsCreated fresh draw body request s (ground arith),
    λ c.
        ap (λ r. r.status_code)
          (sound_post fresh draw body request c.t c.k c.response s c.sound c.created).0,
  )

  pub same_text : (t t' : String) (o : Option String) → o ≡ some t → o ≡ some t' → t ≡ t'
  same_text t t' o e e' = ground arith

  -- The JSON of a response that was returned is not empty, and reads back.
  abbrev pub ReadsJson : Result EventResponse → Type 0
  ReadsJson result =
      (r : EventResponse)
      → result ≡ ok r
      → (services.parse (services.dump r) ≡ ok r) × (is_empty (services.dump r) ≡ false)

  -- Once a POST that found nothing cached has been answered with 200, every later POST with the same
  -- tenant and idempotency key and any valid body, of either kind, is answered with 200 and the same
  -- body, and leaves stores, broker, workflows and cache as they are, as long as the response is
  -- cached. Of the JSON of the response it is assumed that it is not
  -- empty and reads back.
  pub post-idempotent :
      (fresh fresh' : String) (draw draw' : Draw) (body body' : EventBody) (request later : Request)
      (t k : String) (s : Server (Systems R Q T K))
      → given request.tenant_header ≡ some t
      → given request.idempotency_header ≡ some k
      → services.cache.get_cache (idempotency_cache_key t k) s.systems.cache ≡ ok none
      → ReadsJson (create_event services (asked fresh draw body request t k) s.systems).0
      → (post fresh draw body request s).0.status_code ≡ 200
      → IsSound body' later t k
      → let first = post fresh draw body request s in
        let second = post fresh' draw' body' later first.1 in
        (second.0.status_code ≡ 200)
        × (second.0.body ≡ first.0.body)
        × (second.1.systems ≡ first.1.systems)
  unfolding idempotency_cache_key
  post-idempotent fresh fresh' draw draw' body body' request later t k s tenant key missing json
        is_200 sound =
      let c = post_ok-IsCreated fresh draw body request s (ground arith) in
      let r = c.response in
      let made = asked fresh draw body request c.t c.k in
      let again = asked fresh' draw' body' later t k in
      let sys = (create_event services made s.systems).1 in
      let same_t : t ≡ c.t = same_text t c.t (given request.tenant_header) tenant c.sound.tenant in
      let same_k : k ≡ c.k = same_text k c.k (given request.idempotency_header) key c.sound.key in
      let first = sound_post fresh draw body request c.t c.k r s c.sound c.created in
      let returned : create_event services made s.systems ≡ (ok r, sys) = ground arith in
      let reads = json r (rw (← same_t, ← same_k) at c.created) in
      let hit : create_event services again sys ≡ (ok r, sys) =
        create_event-idempotent services made again s.systems sys r
          (rw (← same_t, ← same_k) missing) returned reads.0 reads.1 same_t same_k in
      let s' = (post fresh draw body request s).1 in
      let at' : create_event services again s'.systems ≡ (ok r, sys) = rw first.1 hit in
      let second = sound_post fresh' draw' body' later t k r s' sound (ap (λ x. x.0) at') in
      (ground arith, ground arith, ground arith)
