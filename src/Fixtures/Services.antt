-- ===== src/Fixtures/Services.antt =====
-- A writer and a collector over the in-memory server, and requests to them.
use Prim.Native.String.{◌++◌}
use linka_plays_metric.Prelude.{
  String, ℕ, ◌+◌, ◌*◌, none, some, [], ◌∷◌, true, false, ok, message, second, minute, ◌==◌,
  if◌then◌else◌,
}
use linka_plays_metric.ContractV2 as V2
use linka_plays_metric.Store.{done, refused, failed, insert_v2}
use linka_plays_metric.Http.{Request, whole, Media}
use linka_plays_metric.Writer as Writer
use linka_plays_metric.Collector as Collector
use linka_plays_metric.Fixtures.{
  Content, platform, decoder, header, noon, server, forever, batch_uuid, plays_record,
}
use linka_plays_metric.Fixtures.Codes.{codec, epoch}
use linka_plays_metric.Fixtures.Legacy.{json}
use linka_plays_metric.Fixtures.Keys.{
  signer, verifier, installation_tokens, product_tokens, opaque_text, identity_library, key_set,
}

abbrev pub media : Media
media = record { media_type = λ text. some text }

abbrev pub writer_library : Writer.Library
writer_library = record {
  platform = platform;
  codec = codec;
  media = media;
  json = json;
  decoder = decoder;
}

abbrev pub writer_server : Writer.Server
writer_server = record { secret = []; service_verifier = verifier; max_skew = minute }

abbrev pub writer_readings : Writer.Readings
writer_readings = record { verified = epoch + 30 * second; parsed = noon }

abbrev pub stores : Writer.Stores Content
unfolding insert_v2
stores = record {
  ping = λ s. (done tt, s);
  insert = λ b s. (done tt, s);
  insert_v2 = λ b sha s. insert_v2 server forever b sha noon noon s;
  create_privacy_request = λ r sha s. (refused (failed (message "no queue")), s);
  create_legacy_privacy_request = λ r sha s. (refused (failed (message "no queue")), s);
}

abbrev pub http_client : Collector.HttpWriter
http_client = record {
  v1_path = "/internal/v1/events";
  v2_batch_path = "/internal/v2/batches";
  v2_privacy_path = "/internal/v2/privacy/requests";
  v1_privacy_path = "/internal/v1/privacy/requests";
  secret = [];
  service_signer = signer;
}

-- A batch of the scope of the product token.
abbrev pub token_scope : V2.Scope
token_scope = record {
  product = "linka-plays";
  subject_key = opaque_text;
  person_key = none;
  org_key = some opaque_text;
}

abbrev pub token_header : V2.BatchHeader
token_header = record header { scope = token_scope }

abbrev pub token_decoder : V2.Decoder
token_decoder = record decoder {
  envelope = λ bytes. ok token_header;
  plays = λ bytes. ok (record { header = token_header; records = plays_record ∷ [] });
}

abbrev pub collector_library : Collector.Library
collector_library = record {
  platform = platform;
  codec = codec;
  media = media;
  json = json;
  decoder = token_decoder;
  identity = identity_library;
  decode_product = λ bytes. ok "linka-plays";
  marshal_privacy = λ request. ok [];
}

abbrev pub collector_server : Collector.Server
collector_server = record {
  tokens = installation_tokens;
  product_tokens = some product_tokens;
  identity_tokens = none;
  legacy_product_tokens = true;
  tts_outcome_verifier = verifier;
  tts_outcome_subject_key = opaque_text;
}

abbrev pub collector_readings : Collector.Readings
collector_readings = record {
  checked = epoch + second;
  parsed = noon;
  issued = epoch;
  keys = ok key_set;
  again = ok key_set;
  random = ok 1;
}

-- A writer that counts its calls.
abbrev pub counting : Collector.Writers ℕ
counting = record {
  write = λ body n. (Collector.written tt, n + 1);
  write_v2 = λ id body n. (Collector.written (record { count = 1; replayed = false }), n + 1);
  write_privacy = λ id body n. (Collector.rejected Collector.writer_conflict, n + 1);
  write_legacy_privacy = λ id body n. (Collector.rejected Collector.writer_conflict, n + 1);
}

abbrev pub headers_of : String → String → String
headers_of token name =
    if name == "Content-Type"
    then "application/json"
    else if name == "Idempotency-Key"
    then batch_uuid
    else if name == "Authorization"
    then "Bearer " ++ token
    else ""

abbrev pub post : String → Request
post token = record {
  method = "POST";
  path = "/";
  header = headers_of token;
  body = whole (b'{' ∷ []);
}

-- The token of an installation at the first second of 1970.
abbrev pub installation_text : String
installation_text = "v1.6f1c1f5e-0c55-4b5e-9d59-9b0a3d0f3c01.b.aaab"
