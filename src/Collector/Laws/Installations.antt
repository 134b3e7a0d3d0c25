-- ===== src/Collector/Laws/Installations.antt =====
-- internal/collector/server.go: events and summaries reach the writer only from their installation.
use linka_plays_metric.Prelude.{◌≤◌, ◌≡◌, Bytes, ok, length, All}
use linka_plays_metric.ContractV1 as V1
use linka_plays_metric.Auth.{InstallationClaims}
use linka_plays_metric.Http.{Request, whole, Response, accepted_events}
use linka_plays_metric.Collector.Interfaces.{Writers, Written, Library, Server, Readings}
use linka_plays_metric.Collector.Access.{authenticate}
use linka_plays_metric.Collector.Handlers.{event_error, respond_to, events}

abbrev checked : V1.ValidatedBatch → Bytes → V1.ValidatedBatch × Bytes
checked batch body = (batch, body)

module _ (l : Library) (server : Server) (now : Readings) where
  -- A request with an installation's token, whose body is a valid batch of this installation alone.
  pub record IsOwnEvents (r : Request) (batch : V1.ValidatedBatch) (body : Bytes) : Type 0 where
    pub claims : InstallationClaims
    pub authentic : authenticate l server now (r.header "Authorization") ≡ ok claims
    pub content : r.body ≡ whole body
    pub size : length body ≤ 524_288
    pub parsed : V1.parse_batch l.platform l.json body ≡ ok batch
    pub events : All (λ e. e.event.installation_id ≡ claims.installation_id) batch.events
    pub summaries :
        All (λ s. s.summary.installation_id ≡ claims.installation_id) batch.session_summaries

  module _ {S : Type 0} (w : Writers S) where
    pub data IsForwardedEvents (r : Request) (s : S) : Response × S → Type 0 where
      turned_away : {a : Response} → 400 ≤ a.status → IsForwardedEvents r s (a, s)
      forwarded :
          {batch : V1.ValidatedBatch} {body : Bytes} {reply : Written (Unit {0})} {t : S}
          → IsOwnEvents r batch body
          → w.write body s ≡ (reply, t)
          → IsForwardedEvents r s (
              respond_to
                (λ _. accepted_events (length batch.events) (length batch.session_summaries))
                event_error
                (reply, t))
