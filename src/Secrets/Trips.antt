-- ===== src/Secrets/Trips.antt =====
-- typescript/src/gen/signet/v1/secrets.ts: what the SecretsService's two ends hand each other.
use signet_clients.Prelude.{ℕ, List, [], length, ◌≡◌, ◌≢◌}
use signet_clients.Prelude.Int.{ℤ}
use signet_clients.Runtime.{resolved}
use signet_clients.Wire.{Protobuf, ok, spent}
use signet_clients.Wire.Laws.{IsLawful, ReadsOn, reader_at}
use signet_clients.Wire.Reading.{decode_all}
use signet_clients.Wire.Messages.{decode-ends}
use signet_clients.Timestamp.Dates.{IsExact}
use signet_clients.Secrets.Service.{
  Method, get_secret, watch_secret, get_config, get_service_config, watch_service_config,
  get_service_bundle, watch_service_bundle, acquire_restart_lock, Request, Response,
  request_serialize, response_serialize, request_deserialize, response_deserialize,
}
use signet_clients.Secrets.GetSecretRequest
use signet_clients.Secrets.GetSecretResponse
use signet_clients.Secrets.WatchSecretRequest
use signet_clients.Secrets.WatchSecretResponse
use signet_clients.Secrets.GetConfigRequest
use signet_clients.Secrets.GetConfigResponse
use signet_clients.Secrets.GetServiceConfigRequest
use signet_clients.Secrets.GetServiceConfigResponse
use signet_clients.Secrets.WatchServiceConfigRequest
use signet_clients.Secrets.WatchServiceConfigResponse
use signet_clients.Secrets.GetServiceBundleRequest
use signet_clients.Secrets.GetServiceBundleResponse
use signet_clients.Secrets.WatchServiceBundleRequest
use signet_clients.Secrets.WatchServiceBundleResponse
use signet_clients.Secrets.AcquireRestartLockRequest
use signet_clients.Secrets.AcquireRestartLockResponse

abbrev pub IsValidRequest : (method : Method) → Request method → Type 0
IsValidRequest get_secret = GetSecretRequest.IsValid
IsValidRequest watch_secret = WatchSecretRequest.IsValid
IsValidRequest get_config = GetConfigRequest.IsValid
IsValidRequest get_service_config = GetServiceConfigRequest.IsValid
IsValidRequest watch_service_config = WatchServiceConfigRequest.IsValid
IsValidRequest get_service_bundle = GetServiceBundleRequest.IsValid
IsValidRequest watch_service_bundle = WatchServiceBundleRequest.IsValid
IsValidRequest acquire_restart_lock = AcquireRestartLockRequest.IsValid

abbrev pub IsValidResponse : (method : Method) → Response method → Type 0
IsValidResponse get_secret = GetSecretResponse.IsValid
IsValidResponse watch_secret = WatchSecretResponse.IsValid
IsValidResponse get_config = GetConfigResponse.IsValid 99
IsValidResponse get_service_config = GetServiceConfigResponse.IsValid 99
IsValidResponse watch_service_config = WatchServiceConfigResponse.IsValid 99
IsValidResponse get_service_bundle = GetServiceBundleResponse.IsValid 99
IsValidResponse watch_service_bundle = WatchServiceBundleResponse.IsValid
IsValidResponse acquire_restart_lock = AcquireRestartLockResponse.IsValid

module _ {lib : Protobuf} (laws : IsLawful lib) where
  -- If the serialization of a request does not throw, then deserializing its bytes gives the request
  -- back and reads them all, for every method, if the request's texts have no lone surrogate.
  pub request_deserialize-serialize :
      (millis_sum : ℤ → ℤ → ℤ) (method : Method) (m : Request method) (bs : List ℕ)
      → IsValidRequest method m
      → request_serialize lib method m ≡ resolved bs
      → request_deserialize lib millis_sum method bs ≡ ok m (reader_at (length bs) [])
  unfolding request_serialize request_deserialize
  request_deserialize-serialize millis_sum get_secret m bs valid h =
      decode_all _ _ 99 bs (GetSecretRequest.encode-Writes laws 99 m valid) h
  request_deserialize-serialize millis_sum watch_secret m bs valid h =
      decode_all _ _ 99 bs (WatchSecretRequest.encode-Writes laws 99 m valid) h
  request_deserialize-serialize millis_sum get_config m bs valid h =
      decode_all _ _ 99 bs (GetConfigRequest.encode-Writes laws 99 m valid) h
  request_deserialize-serialize millis_sum get_service_config m bs valid h =
      decode_all _ _ 99 bs (GetServiceConfigRequest.encode-Writes laws 99 m valid) h
  request_deserialize-serialize millis_sum watch_service_config m bs valid h =
      decode_all _ _ 99 bs (WatchServiceConfigRequest.encode-Writes laws 99 m valid) h
  request_deserialize-serialize millis_sum get_service_bundle m bs valid h =
      decode_all _ _ 99 bs (GetServiceBundleRequest.encode-Writes laws 99 m valid) h
  request_deserialize-serialize millis_sum watch_service_bundle m bs valid h =
      decode_all _ _ 99 bs (WatchServiceBundleRequest.encode-Writes laws 99 m valid) h
  request_deserialize-serialize millis_sum acquire_restart_lock m bs valid h =
      decode_all _ _ 99 bs (AcquireRestartLockRequest.encode-Writes laws 99 m valid) h

module _ {lib : Protobuf} (onward : ReadsOn lib) where
  request_ends :
      (millis_sum : ℤ → ℤ → ℤ) (method : Method) (bs : List ℕ)
      → request_deserialize lib millis_sum method bs ≢ spent
  unfolding request_deserialize
  request_ends millis_sum get_secret bs = decode-ends onward _ _ (GetSecretRequest.ends onward) bs
  request_ends millis_sum watch_secret bs =
      decode-ends onward _ _ (WatchSecretRequest.ends onward) bs
  request_ends millis_sum get_config bs = decode-ends onward _ _ (GetConfigRequest.ends onward) bs
  request_ends millis_sum get_service_config bs =
      decode-ends onward _ _ (GetServiceConfigRequest.ends onward) bs
  request_ends millis_sum watch_service_config bs =
      decode-ends onward _ _ (WatchServiceConfigRequest.ends onward) bs
  request_ends millis_sum get_service_bundle bs =
      decode-ends onward _ _ (GetServiceBundleRequest.ends onward) bs
  request_ends millis_sum watch_service_bundle bs =
      decode-ends onward _ _ (WatchServiceBundleRequest.ends onward) bs
  request_ends millis_sum acquire_restart_lock bs =
      decode-ends onward _ _ (AcquireRestartLockRequest.ends onward) bs

module _ {lib : Protobuf} (laws : IsLawful lib) where
  -- If the serialization of a response does not throw, then deserializing its bytes gives the response
  -- back and reads them all, for every method: if its texts have no lone surrogate, its date is valid,
  -- and its document is plain and nested no more deeply than 99 calls of `decode`.
  pub response_deserialize-serialize :
      {millis_sum : ℤ → ℤ → ℤ} (exact : IsExact millis_sum) (method : Method) (m : Response method)
      (bs : List ℕ)
      → IsValidResponse method m
      → response_serialize lib method m ≡ resolved bs
      → response_deserialize lib millis_sum method bs ≡ ok m (reader_at (length bs) [])
  unfolding response_serialize response_deserialize
  response_deserialize-serialize {millis_sum} exact get_secret m bs valid h =
      decode_all _ _ 99 bs (GetSecretResponse.encode-Writes laws 99 m valid) h
  response_deserialize-serialize {millis_sum} exact watch_secret m bs valid h =
      decode_all _ _ 99 bs (WatchSecretResponse.encode-Writes laws 99 m valid) h
  response_deserialize-serialize {millis_sum} exact get_config m bs valid h =
      decode_all _ _ 99 bs (GetConfigResponse.encode-Writes laws 99 m valid) h
  response_deserialize-serialize {millis_sum} exact get_service_config m bs valid h =
      decode_all _ _ 99 bs (GetServiceConfigResponse.encode-Writes laws 99 m valid) h
  response_deserialize-serialize {millis_sum} exact watch_service_config m bs valid h =
      decode_all _ _ 99 bs (WatchServiceConfigResponse.encode-Writes laws 99 m valid) h
  response_deserialize-serialize {millis_sum} exact get_service_bundle m bs valid h =
      decode_all _ _ 99 bs (GetServiceBundleResponse.encode-Writes laws 99 m valid) h
  response_deserialize-serialize {millis_sum} exact watch_service_bundle m bs valid h =
      decode_all _ _ 99 bs (WatchServiceBundleResponse.encode-Writes laws 99 m valid) h
  response_deserialize-serialize {millis_sum} exact acquire_restart_lock m bs valid h =
      decode_all _ _ 99 bs (AcquireRestartLockResponse.encode-Writes laws exact 98 m valid) h

module _ {lib : Protobuf} (onward : ReadsOn lib) where
  response_ends :
      (millis_sum : ℤ → ℤ → ℤ) (method : Method) (bs : List ℕ)
      → response_deserialize lib millis_sum method bs ≢ spent
  unfolding response_deserialize
  response_ends millis_sum get_secret bs = decode-ends onward _ _ (GetSecretResponse.ends onward) bs
  response_ends millis_sum watch_secret bs =
      decode-ends onward _ _ (WatchSecretResponse.ends onward) bs
  response_ends millis_sum get_config bs = decode-ends onward _ _ (GetConfigResponse.ends onward) bs
  response_ends millis_sum get_service_config bs =
      decode-ends onward _ _ (GetServiceConfigResponse.ends onward) bs
  response_ends millis_sum watch_service_config bs =
      decode-ends onward _ _ (WatchServiceConfigResponse.ends onward) bs
  response_ends millis_sum get_service_bundle bs =
      decode-ends onward _ _ (GetServiceBundleResponse.ends onward) bs
  response_ends millis_sum watch_service_bundle bs =
      decode-ends onward _ _ (WatchServiceBundleResponse.ends onward) bs
  response_ends millis_sum acquire_restart_lock bs =
      decode-ends onward _ _ (AcquireRestartLockResponse.ends onward millis_sum) bs

  -- Whatever the bytes, reading them as a request or as a response of any method comes to an end, by
  -- returning or by throwing.
  pub deserialize-ends :
      (millis_sum : ℤ → ℤ → ℤ) (method : Method) (bs : List ℕ)
      → (request_deserialize lib millis_sum method bs ≢ spent)
        × (response_deserialize lib millis_sum method bs ≢ spent)
  deserialize-ends millis_sum method bs =
      (request_ends onward millis_sum method bs, response_ends millis_sum method bs)
