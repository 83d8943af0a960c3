-- ===== src/Secrets/Service.antt =====
-- typescript/src/gen/signet/v1/secrets.ts: the definition of the SecretsService, by which
-- grpc-js serves it and calls it.
use signet_clients.Prelude.{Bool, true, false, none, List, ℕ}
use signet_clients.Prelude.Int.{ℤ}
use signet_clients.Runtime.{Text, codes, Outcome}
use signet_clients.Wire.{Protobuf, Read, from_bytes, decode_levels}
use signet_clients.Secrets.GetSecretRequest
use signet_clients.Secrets.GetSecretResponse
use signet_clients.Secrets.WatchSecretRequest
use signet_clients.Secrets.WatchSecretResponse
use signet_clients.Secrets.GetConfigRequest
use signet_clients.Secrets.GetConfigResponse
use signet_clients.Secrets.GetServiceConfigRequest
use signet_clients.Secrets.GetServiceConfigResponse
use signet_clients.Secrets.WatchServiceConfigRequest
use signet_clients.Secrets.WatchServiceConfigResponse
use signet_clients.Secrets.GetServiceBundleRequest
use signet_clients.Secrets.GetServiceBundleResponse
use signet_clients.Secrets.WatchServiceBundleRequest
use signet_clients.Secrets.WatchServiceBundleResponse
use signet_clients.Secrets.AcquireRestartLockRequest
use signet_clients.Secrets.AcquireRestartLockResponse

pub data Method : Type 0 where
  get_secret watch_secret get_config get_service_config watch_service_config get_service_bundle
        watch_service_bundle acquire_restart_lock :
      Method

abbrev pub path : Method → Text
path get_secret = codes "/signet.v1.SecretsService/GetSecret"
path watch_secret = codes "/signet.v1.SecretsService/WatchSecret"
path get_config = codes "/signet.v1.SecretsService/GetConfig"
path get_service_config = codes "/signet.v1.SecretsService/GetServiceConfig"
path watch_service_config = codes "/signet.v1.SecretsService/WatchServiceConfig"
path get_service_bundle = codes "/signet.v1.SecretsService/GetServiceBundle"
path watch_service_bundle = codes "/signet.v1.SecretsService/WatchServiceBundle"
path acquire_restart_lock = codes "/signet.v1.SecretsService/AcquireRestartLock"

abbrev pub request_stream : Method → Bool
request_stream get_secret = false
request_stream watch_secret = false
request_stream get_config = false
request_stream get_service_config = false
request_stream watch_service_config = false
request_stream get_service_bundle = false
request_stream watch_service_bundle = false
request_stream acquire_restart_lock = true

abbrev pub response_stream : Method → Bool
response_stream get_secret = false
response_stream watch_secret = true
response_stream get_config = false
response_stream get_service_config = false
response_stream watch_service_config = true
response_stream get_service_bundle = false
response_stream watch_service_bundle = true
response_stream acquire_restart_lock = true

abbrev pub Request : Method → Type 0
Request get_secret = GetSecretRequest.GetSecretRequest
Request watch_secret = WatchSecretRequest.WatchSecretRequest
Request get_config = GetConfigRequest.GetConfigRequest
Request get_service_config = GetServiceConfigRequest.GetServiceConfigRequest
Request watch_service_config = WatchServiceConfigRequest.WatchServiceConfigRequest
Request get_service_bundle = GetServiceBundleRequest.GetServiceBundleRequest
Request watch_service_bundle = WatchServiceBundleRequest.WatchServiceBundleRequest
Request acquire_restart_lock = AcquireRestartLockRequest.AcquireRestartLockRequest

abbrev pub Response : Method → Type 0
Response get_secret = GetSecretResponse.GetSecretResponse
Response watch_secret = WatchSecretResponse.WatchSecretResponse
Response get_config = GetConfigResponse.GetConfigResponse
Response get_service_config = GetServiceConfigResponse.GetServiceConfigResponse
Response watch_service_config = WatchServiceConfigResponse.WatchServiceConfigResponse
Response get_service_bundle = GetServiceBundleResponse.GetServiceBundleResponse
Response watch_service_bundle = WatchServiceBundleResponse.WatchServiceBundleResponse
Response acquire_restart_lock = AcquireRestartLockResponse.AcquireRestartLockResponse

module _ (lib : Protobuf) where
  unfoldable pub request_serialize : (method : Method) → Request method → Outcome (List ℕ)
  request_serialize get_secret = GetSecretRequest.encode lib
  request_serialize watch_secret = WatchSecretRequest.encode lib
  request_serialize get_config = GetConfigRequest.encode lib
  request_serialize get_service_config = GetServiceConfigRequest.encode lib
  request_serialize watch_service_config = WatchServiceConfigRequest.encode lib
  request_serialize get_service_bundle = GetServiceBundleRequest.encode lib
  request_serialize watch_service_bundle = WatchServiceBundleRequest.encode lib
  request_serialize acquire_restart_lock = AcquireRestartLockRequest.encode lib

  unfoldable pub response_serialize : (method : Method) → Response method → Outcome (List ℕ)
  response_serialize get_secret = GetSecretResponse.encode lib
  response_serialize watch_secret = WatchSecretResponse.encode lib
  response_serialize get_config = GetConfigResponse.encode lib
  response_serialize get_service_config = GetServiceConfigResponse.encode lib
  response_serialize watch_service_config = WatchServiceConfigResponse.encode lib
  response_serialize get_service_bundle = GetServiceBundleResponse.encode lib
  response_serialize watch_service_bundle = WatchServiceBundleResponse.encode lib
  response_serialize acquire_restart_lock = AcquireRestartLockResponse.encode lib

module _ (lib : Protobuf) (millis_sum : ℤ → ℤ → ℤ) where
  unfoldable pub request_deserialize : (method : Method) → List ℕ → Read (Request method)
  unfolding GetSecretRequest.decode WatchSecretRequest.decode GetConfigRequest.decode
      GetServiceConfigRequest.decode WatchServiceConfigRequest.decode GetServiceBundleRequest.decode
      WatchServiceBundleRequest.decode AcquireRestartLockRequest.decode
  request_deserialize get_secret bs = GetSecretRequest.decode lib decode_levels none (from_bytes bs)
  request_deserialize watch_secret bs =
      WatchSecretRequest.decode lib decode_levels none (from_bytes bs)
  request_deserialize get_config bs = GetConfigRequest.decode lib decode_levels none (from_bytes bs)
  request_deserialize get_service_config bs =
      GetServiceConfigRequest.decode lib decode_levels none (from_bytes bs)
  request_deserialize watch_service_config bs =
      WatchServiceConfigRequest.decode lib decode_levels none (from_bytes bs)
  request_deserialize get_service_bundle bs =
      GetServiceBundleRequest.decode lib decode_levels none (from_bytes bs)
  request_deserialize watch_service_bundle bs =
      WatchServiceBundleRequest.decode lib decode_levels none (from_bytes bs)
  request_deserialize acquire_restart_lock bs =
      AcquireRestartLockRequest.decode lib decode_levels none (from_bytes bs)

  unfoldable pub response_deserialize : (method : Method) → List ℕ → Read (Response method)
  unfolding GetSecretResponse.decode WatchSecretResponse.decode GetConfigResponse.decode
      GetServiceConfigResponse.decode WatchServiceConfigResponse.decode
      GetServiceBundleResponse.decode WatchServiceBundleResponse.decode
      AcquireRestartLockResponse.decode
  response_deserialize get_secret bs =
      GetSecretResponse.decode lib decode_levels none (from_bytes bs)
  response_deserialize watch_secret bs =
      WatchSecretResponse.decode lib decode_levels none (from_bytes bs)
  response_deserialize get_config bs =
      GetConfigResponse.decode lib decode_levels none (from_bytes bs)
  response_deserialize get_service_config bs =
      GetServiceConfigResponse.decode lib decode_levels none (from_bytes bs)
  response_deserialize watch_service_config bs =
      WatchServiceConfigResponse.decode lib decode_levels none (from_bytes bs)
  response_deserialize get_service_bundle bs =
      GetServiceBundleResponse.decode lib decode_levels none (from_bytes bs)
  response_deserialize watch_service_bundle bs =
      WatchServiceBundleResponse.decode lib decode_levels none (from_bytes bs)
  response_deserialize acquire_restart_lock bs =
      AcquireRestartLockResponse.decode lib millis_sum decode_levels none (from_bytes bs)
