-- ===== src/Collector/Laws/Scopes.antt =====
-- internal/collector/server.go: a batch reaches the writer only under the scope of its token.
use linka_plays_metric.Prelude.{
  String, ℕ, ◌++◌, codes, ◌⊎◌, ◌≤◌, ◌≡◌, refl, subst, inl, inr, Option, none, some, true, eq_iff,
  arith, Bytes, ok, length,
}
use linka_plays_metric.ContractV2 as V2
use linka_plays_metric.Auth.{ProductClaims}
use linka_plays_metric.Http.{
  Request, whole, Response, accepted_batch, pass, check_ok, check_body, is_json, read_body,
  Check-cases, >>=-eq-pass, check-eq-pass, check_ok-eq-pass, check_body-eq-pass, Refuses,
  >>=-Refuses, check-Refuses, check_ok-Refuses, check_body-Refuses, pass-Refuses, write_error,
}
use linka_plays_metric.Collector.Interfaces.{
  Writers, Written, written, rejected, WriterError, writer_conflict, writer_suppressed, unavailable,
  V2WriteResult, Library, Server, Readings,
}
use linka_plays_metric.Collector.Access.{
  authenticate_product, optional_string_equal, scope_matches_claims,
}
use linka_plays_metric.Collector.Laws.Grants.{IsGranted, authenticate_product-IsGranted}
use linka_plays_metric.Collector.Handlers.{batch_error, is_key_of, check_batch_v2, batches_v2}

pub optional_string_equal_sound : (a b : Option String) → optional_string_equal a b ≡ true → a ≡ b
unfolding optional_string_equal
optional_string_equal_sound none none h = refl
optional_string_equal_sound none (some b) h = cc
optional_string_equal_sound (some a) none h = cc
optional_string_equal_sound (some a) (some b) h = ground (arith, eq_iff a b)

-- The scope names the product and the keys of the claims.
pub record IsScopeOf (scope : V2.Scope) (claims : ProductClaims) : Type 0 where
  pub product : scope.product ≡ claims.product
  pub subject : scope.subject_key ≡ claims.subject_key
  pub person : scope.person_key ≡ claims.person_key
  pub org : scope.org_key ≡ claims.org_key

scope_matches_claims_sound :
    (scope : V2.Scope) (claims : ProductClaims)
    → scope_matches_claims scope claims ≡ true
    → IsScopeOf scope claims
unfolding scope_matches_claims
scope_matches_claims_sound scope claims h = record {
  product = ground (arith, eq_iff scope.product claims.product);
  subject = ground (arith, eq_iff scope.subject_key claims.subject_key);
  person = optional_string_equal_sound _ _ (ground arith);
  org = optional_string_equal_sound _ _ (ground arith);
}

abbrev checked : V2.ValidatedBatch → Bytes → V2.ValidatedBatch × Bytes
checked batch body = (batch, body)

module _ (l : Library) (server : Server) (now : Readings) where
  -- A request of JSON with a token to write telemetry, whose body is a valid batch of the scope that
  -- the token is for.
  pub record IsOwnBatch (r : Request) (batch : V2.ValidatedBatch) (body : Bytes) : Type 0 where
    pub claims : ProductClaims
    pub token : String
    pub bearer_token : codes (r.header "Authorization") ≡ codes "Bearer " ++ codes token
    pub granted : IsGranted l server now token claims
    pub json : is_json l.media r ≡ true
    pub content : r.body ≡ whole body
    pub size : length body ≤ 524_288
    pub parsed : V2.parse_batch l.platform l.decoder body now.parsed ≡ ok batch
    pub scope : IsScopeOf batch.header.scope claims

  check_batch_v2-IsOwnBatch :
      (r : Request) (batch : V2.ValidatedBatch) (body : Bytes)
      → check_batch_v2 l server now r ≡ pass (batch, body)
      → IsOwnBatch r batch body
  unfolding check_batch_v2
  check_batch_v2-IsOwnBatch r batch body h =
      let (json, h1) = check-eq-pass (is_json l.media r) _ _ _ h in
      let token = authenticate_product l server now r "telemetry:write" in
      let (claims, authentic, h2) = >>=-eq-pass (check_ok token 401 "invalid_product_token") _ h1 in
      let (bytes, content, h3) =
        >>=-eq-pass (check_body (read_body V2.max_batch_bytes r.body)) _ h2 in
      let parsing = V2.parse_batch l.platform l.decoder bytes now.parsed in
      let (b, parsed, h4) = >>=-eq-pass (check_ok parsing 400 "invalid_batch") _ h3 in
      let (_, h5) = check-eq-pass (is_key_of l server now r b.header.batch_id) _ _ _ h4 in
      let (matches, h6) = check-eq-pass (scope_matches_claims b.header.scope claims) _ _ _ h5 in
      let (arrived, size) = check_body-eq-pass V2.max_batch_bytes r.body content in
      let same : checked b bytes ≡ checked batch body = cc h6 in
      let (encoded, held, granted) =
        authenticate_product-IsGranted l server now r claims
          (check_ok-eq-pass token 401 "invalid_product_token" authentic) in
      let good : IsOwnBatch r b bytes = record {
        claims = claims;
        token = encoded;
        bearer_token = held;
        granted = granted;
        json = json;
        content = arrived;
        size = size;
        parsed = check_ok-eq-pass parsing 400 "invalid_batch" parsed;
        scope = scope_matches_claims_sound b.header.scope claims matches;
      } in
      subst (λ x. IsOwnBatch r x.0 x.1) same good

  check_batch_v2-Refuses : (r : Request) → Refuses (check_batch_v2 l server now r)
  unfolding check_batch_v2
  check_batch_v2-Refuses r = >>=-Refuses _ _ (check-Refuses _ 415 _ (omega arith)) λ _.
      >>=-Refuses _ _
        (check_ok-Refuses (authenticate_product l server now r "telemetry:write") 401
          "invalid_product_token" (omega arith))
        λ claims. >>=-Refuses _ _ (check_body-Refuses _) λ body.
          >>=-Refuses _ _
            (check_ok-Refuses (V2.parse_batch l.platform l.decoder body now.parsed) 400
              "invalid_batch" (omega arith))
            λ batch.
              >>=-Refuses _ _
                (check-Refuses (is_key_of l server now r batch.header.batch_id) 400
                  "invalid_idempotency_key" (omega arith))
                λ _.
                  >>=-Refuses _ _
                    (check-Refuses (scope_matches_claims batch.header.scope claims) 403
                      "token_scope_mismatch" (omega arith))
                    λ _. pass-Refuses (batch, body)

  module _ {S : Type 0} (w : Writers S) where
    -- The status and the error that the writer's error is answered with.
    abbrev pub status_of : WriterError → ℕ × String
    status_of writer_conflict = (409, "idempotency_conflict")
    status_of writer_suppressed = (403, "telemetry_suppressed")
    status_of (unavailable e) = (502, "writer_unavailable")

    batch_error-status_of :
        (e : WriterError) → batch_error e ≡ write_error (status_of e).0 (status_of e).1
    unfolding batch_error
    batch_error-status_of writer_conflict = refl
    batch_error-status_of writer_suppressed = refl
    batch_error-status_of (unavailable e) = refl

    Written-cases :
        {A : Type 0} (x : Written A × S)
        → ((a : A) × (t : S) × (x ≡ (written a, t)))
          ⊎ ((e : WriterError) × (t : S) × (x ≡ (rejected e, t)))
    Written-cases (written a, t) = inl (a, t, refl)
    Written-cases (rejected e, t) = inr (e, t, refl)

    pub data IsForwarded (r : Request) (s : S) : Response × S → Type 0 where
      turned_away : {a : Response} → 400 ≤ a.status → IsForwarded r s (a, s)
      forwarded :
          {batch : V2.ValidatedBatch} {body : Bytes} {result : V2WriteResult} {t : S}
          → IsOwnBatch r batch body
          → w.write_v2 batch.header.batch_id body s ≡ (written result, t)
          → IsForwarded r s (
            record {
              status = 202;
              content = accepted_batch batch.header.batch_id result.count result.replayed;
            },
            t,
          )
      not_written :
          {batch : V2.ValidatedBatch} {body : Bytes} {e : WriterError} {t : S}
          → IsOwnBatch r batch body
          → w.write_v2 batch.header.batch_id body s ≡ (rejected e, t)
          → IsForwarded r s (write_error (status_of e).0 (status_of e).1, t)

    -- Every call of the handler for batches either is turned away with an error status, and nothing
    -- reaches the writer; or its bearer token is an accepted identity token whose scopes have
    -- telemetry:write, or an accepted legacy product token where these are enabled, its body is a
    -- valid batch of the token's own product and keys, and just this body went to the writer: if the
    -- writer took it, the answer is 202 with the writer's result, else it has the status and the
    -- error that `status_of` lists for the writer's error.
    pub batches_v2-IsForwarded :
        (r : Request) (s : S) → IsForwarded r s (batches_v2 l server now w r s)
    unfolding batches_v2 Refuses
    batches_v2-IsForwarded r s = elim (Check-cases (check_batch_v2 l server now r)) [
      | inr (a, ended) ↦ rw (ended, batches_v2) (turned_away (check_batch_v2-Refuses r a ended))
      | inl ((batch, body), good) ↦
          let own = check_batch_v2-IsOwnBatch r batch body good in
          elim (Written-cases (w.write_v2 batch.header.batch_id body s)) [
            | inl (result, t, reply) ↦ rw (good, reply, batches_v2) (forwarded own reply)
            | inr (e, t, reply) ↦
                rw (good, reply, batches_v2, batch_error-status_of e) (not_written own reply)
          ]
    ]
