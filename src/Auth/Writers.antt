-- ===== src/Auth/Writers.antt =====
-- internal/auth/writer.go: requests to the writer, signed with one shared secret.
use Prim.Native.String.{◌++◌}
use linka_plays_metric.Prelude.{
  String, ℕ, Option, none, some, [], not, Time, Bytes, Result, ok, err, message, guard, ◌>>=◌, ◌>>◌,
}
use linka_plays_metric.Auth.Codecs.{Codec, equal}
use linka_plays_metric.Auth.Clock.{unix, from_unix, is_skewed}
use linka_plays_metric.Auth.Services.{decodes_to}

pub record WriterSignature : Type 0 where
  pub timestamp : String
  pub body_sha : String
  pub signature : String

module _ (c : Codec) where
  abbrev pub writer_mac : Bytes → Bytes → String → Bytes
  writer_mac secret body timestamp = c.hmac secret (timestamp ++ "\n" ++ c.hex (c.sha256 body))

  unfoldable pub sign_writer_request : Bytes → Bytes → Time → WriterSignature
  sign_writer_request secret body timestamp = record {
    timestamp = c.format_int (unix timestamp);
    body_sha = c.hex (c.sha256 body);
    signature = c.base64 (writer_mac secret body (c.format_int (unix timestamp)));
  }

  abbrev parsed_writer_timestamp : Option ℕ → Result ℕ
  parsed_writer_timestamp none = err (message "invalid writer timestamp")
  parsed_writer_timestamp (some w) = ok w

  abbrev provided_signature : Option Bytes → Result Bytes
  provided_signature none = err (message "invalid writer signature")
  provided_signature (some provided) = ok provided

  -- What `expected, _ := base64.RawURLEncoding.DecodeString(…)` holds, whatever the error is.
  abbrev expected_signature : Option Bytes → Bytes
  expected_signature none = []
  expected_signature (some expected) = expected

  unfoldable pub verify_writer_request :
      Bytes → Bytes → Time → ℕ → WriterSignature → Result (Unit {0})
  unfolding sign_writer_request
  verify_writer_request secret body now max_skew headers = do
    ts ← parsed_writer_timestamp (c.parse_int headers.timestamp)
    guard (not (is_skewed now (from_unix ts) max_skew))
        (message "writer timestamp outside allowed skew")
    guard (decodes_to c (c.unhex headers.body_sha) (c.sha256 body))
        (message "invalid writer body digest")
    provided ← provided_signature (c.unbase64 headers.signature)
    (let fresh = sign_writer_request secret body (from_unix ts) in
        guard (equal provided (expected_signature (c.unbase64 fresh.signature)))
          (message "invalid writer signature"))
