-- ===== src/Secrets.antt =====
-- typescript/src/gen/signet/v1/secrets.ts: the messages of the SecretsService, each with its functions,
-- and the service that sends them.
pub mod GetSecretRequest
pub mod GetSecretResponse
pub mod WatchSecretRequest
pub mod WatchSecretResponse
pub mod GetConfigRequest
pub mod GetConfigResponse
pub mod GetServiceConfigRequest
pub mod GetServiceConfigResponse
pub mod WatchServiceConfigRequest
pub mod GetServiceBundleRequest
pub mod GetServiceBundleResponse
pub mod WatchServiceBundleRequest
pub mod WatchServiceBundleResponse
pub mod AcquireRestartLockRequest
pub mod AcquireRestartLockResponse
pub mod WatchServiceConfigResponse
pub mod Enumerations
pub mod Service
pub mod Trips
pub mod Tolerance
pub mod Tests
