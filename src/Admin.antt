-- ===== src/Admin.antt =====
-- typescript/src/gen/admin/v1/admin.ts: the messages of the GitOpsService, each with its functions, and
-- the service that sends them.
pub mod SopsKeyInfo
pub mod RepositoryInfo
pub mod SyncBundleHeader
pub mod JsonPatchOperation
pub mod GetSopsPublicKeyRequest
pub mod GetSopsPublicKeyResponse
pub mod RotateSopsKeyRequest
pub mod RotateSopsKeyResponse
pub mod ListSopsKeysRequest
pub mod ListSopsKeysResponse
pub mod PruneSopsKeyRequest
pub mod PruneSopsKeyResponse
pub mod RegisterRepositoryRequest
pub mod RegisterRepositoryResponse
pub mod ListRepositoriesRequest
pub mod ListRepositoriesResponse
pub mod RemoveRepositoryRequest
pub mod RemoveRepositoryResponse
pub mod TriggerSyncRequest
pub mod TriggerSyncResponse
pub mod SyncBundleChunk
pub mod SyncBundleResponse
pub mod PatchServiceConfigRequest
pub mod PatchServiceConfigResponse
pub mod GetServiceConfigRequest
pub mod GetServiceConfigResponse
pub mod PutServiceConfigRequest
pub mod PutServiceConfigResponse
pub mod Service
pub mod Trips
pub mod Tests
