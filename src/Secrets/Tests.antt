-- ===== src/Secrets/Tests.antt =====
-- Tests of the SecretsService's messages, and the theorems on them at concrete inputs.
use signet_clients.Prelude.{ℕ, false, some, List, [], ◌∷◌, ◌++◌, length, ◌≡◌, ◌≢◌, refl, arith}
use signet_clients.Prelude.Int.{pos}
use signet_clients.Runtime.{codes, JsValue, resolved, rejected}
use signet_clients.Wire.{ok, spent}
use signet_clients.Wire.Laws.{no_lone_surrogate, reader_at}
use signet_clients.Wire.Fields.{string_field, int32_field, int64_field, bool_field, message_field}
use signet_clients.Wire.Samples.{
  sample_package, sample_package-IsLawful, sample_package-ReadsOn, read_number, number_back,
  map_back,
}
use signet_clients.Timestamp.{date, encode_date}
use signet_clients.Timestamp.Tests.{whole_sum, whole_sum-IsExact}
use signet_clients.Secrets.AcquireRestartLockRequest
use signet_clients.Secrets.AcquireRestartLockResponse
use signet_clients.Secrets.Service.{
  acquire_restart_lock, get_service_bundle, request_serialize, response_serialize,
  request_deserialize, response_deserialize,
}
use signet_clients.Secrets.Trips.{
  request_deserialize-serialize, response_deserialize-serialize, deserialize-ends,
}
use signet_clients.Secrets.Tolerance.{response-skips, request-rejects}

abbrev request : AcquireRestartLockRequest.AcquireRestartLockRequest
request = record {
  namespace = codes "prod";
  service = codes "web";
  ttl_seconds = pos 30;
  heartbeat = false;
}

-- The namespace, the service and the TTL, each behind its tag.
abbrev request_bytes : List ℕ
request_bytes = (10 ∷ 4 ∷ codes "prod") ++ ((18 ∷ 3 ∷ codes "web") ++ 24 ∷ 60 ∷ [])

request_deserialize-serialize_example :
    request_deserialize sample_package whole_sum acquire_restart_lock request_bytes
    ≡ ok request (reader_at (length request_bytes) [])
unfolding request_serialize AcquireRestartLockRequest.encode string_field int32_field bool_field
    no_lone_surrogate
request_deserialize-serialize_example =
    request_deserialize-serialize sample_package-IsLawful whole_sum acquire_restart_lock request
      request_bytes (refl, refl) refl

abbrev response : AcquireRestartLockResponse.AcquireRestartLockResponse
response = record {
  message_type = pos 2;
  position = pos 0;
  token = codes "t";
  expires_at = some (date (pos 1500));
}

-- The date is a message of its own: a second and half a thousand million nanoseconds.
abbrev response_bytes : List ℕ
response_bytes = 8 ∷ 4 ∷ 26 ∷ 1 ∷ 116 ∷ 34 ∷ 4 ∷ 8 ∷ 2 ∷ 16 ∷ 1000000000 ∷ []

response_written :
    response_serialize sample_package acquire_restart_lock response ≡ resolved response_bytes
unfolding response_serialize AcquireRestartLockResponse.encode string_field int32_field
    message_field encode_date int64_field
response_written = refl

response_deserialize-serialize_example :
    response_deserialize sample_package whole_sum acquire_restart_lock response_bytes
    ≡ ok response (reader_at (length response_bytes) [])
unfolding no_lone_surrogate
response_deserialize-serialize_example =
    response_deserialize-serialize sample_package-IsLawful whole_sum-IsExact acquire_restart_lock
      response response_bytes (refl, (omega arith, omega arith)) response_written

-- Bytes that are no message.
deserialize-ends_example :
    (request_deserialize sample_package whole_sum get_service_bundle (10 ∷ 7 ∷ []) ≢ spent)
    × (response_deserialize sample_package whole_sum get_service_bundle (10 ∷ 7 ∷ []) ≢ spent)
deserialize-ends_example =
    deserialize-ends sample_package-ReadsOn whole_sum get_service_bundle (10 ∷ 7 ∷ [])

-- A number in field 5, which the response does not have.
response-skips_example :
    response_deserialize sample_package whole_sum acquire_restart_lock (40 ∷ 7 ∷ response_bytes)
    ≡ ok response (reader_at (length (40 ∷ 7 ∷ response_bytes)) [])
unfolding no_lone_surrogate
response-skips_example =
    response-skips sample_package-IsLawful whole_sum-IsExact response response_bytes 40 (7 ∷ [])
      (refl, (omega arith, omega arith)) response_written (omega arith) (λ e. omega arith)
      (λ e. omega arith) (λ e. omega arith) (λ e. omega arith) (λ e. omega arith) (λ e. omega arith)
      (map_back read_number (λ _. tt) (7 ∷ []) 7 tt (number_back 7) refl)

abbrev long_request : AcquireRestartLockRequest.AcquireRestartLockRequest
long_request = record request { ttl_seconds = pos 2147483648 }

request-rejects_run :
    (e : JsValue) × (request_serialize sample_package acquire_restart_lock long_request
      ≡ rejected e)
request-rejects_run = request-rejects sample_package-IsLawful long_request (λ h. omega arith)
