-- ===== src/Admin/Service.antt =====
-- typescript/src/gen/admin/v1/admin.ts: the definition of the GitOpsService, by which
-- grpc-js serves it and calls it.
use signet_clients.Prelude.{Bool, true, false, none, List, ℕ}
use signet_clients.Runtime.{Text, codes, Outcome}
use signet_clients.Wire.{Protobuf, Read, from_bytes, decode_levels}
use signet_clients.Admin.GetSopsPublicKeyRequest
use signet_clients.Admin.GetSopsPublicKeyResponse
use signet_clients.Admin.RotateSopsKeyRequest
use signet_clients.Admin.RotateSopsKeyResponse
use signet_clients.Admin.ListSopsKeysRequest
use signet_clients.Admin.ListSopsKeysResponse
use signet_clients.Admin.PruneSopsKeyRequest
use signet_clients.Admin.PruneSopsKeyResponse
use signet_clients.Admin.RegisterRepositoryRequest
use signet_clients.Admin.RegisterRepositoryResponse
use signet_clients.Admin.ListRepositoriesRequest
use signet_clients.Admin.ListRepositoriesResponse
use signet_clients.Admin.RemoveRepositoryRequest
use signet_clients.Admin.RemoveRepositoryResponse
use signet_clients.Admin.TriggerSyncRequest
use signet_clients.Admin.TriggerSyncResponse
use signet_clients.Admin.SyncBundleChunk
use signet_clients.Admin.SyncBundleResponse
use signet_clients.Admin.PatchServiceConfigRequest
use signet_clients.Admin.PatchServiceConfigResponse
use signet_clients.Admin.GetServiceConfigRequest
use signet_clients.Admin.GetServiceConfigResponse
use signet_clients.Admin.PutServiceConfigRequest
use signet_clients.Admin.PutServiceConfigResponse

pub data Method : Type 0 where
  get_sops_public_key rotate_sops_key list_sops_keys prune_sops_key register_repository
        list_repositories remove_repository trigger_sync sync_bundle patch_service_config
        get_service_config put_service_config :
      Method

abbrev pub path : Method → Text
path get_sops_public_key = codes "/admin.v1.GitOpsService/GetSOPSPublicKey"
path rotate_sops_key = codes "/admin.v1.GitOpsService/RotateSOPSKey"
path list_sops_keys = codes "/admin.v1.GitOpsService/ListSOPSKeys"
path prune_sops_key = codes "/admin.v1.GitOpsService/PruneSOPSKey"
path register_repository = codes "/admin.v1.GitOpsService/RegisterRepository"
path list_repositories = codes "/admin.v1.GitOpsService/ListRepositories"
path remove_repository = codes "/admin.v1.GitOpsService/RemoveRepository"
path trigger_sync = codes "/admin.v1.GitOpsService/TriggerSync"
path sync_bundle = codes "/admin.v1.GitOpsService/SyncBundle"
path patch_service_config = codes "/admin.v1.GitOpsService/PatchServiceConfig"
path get_service_config = codes "/admin.v1.GitOpsService/GetServiceConfig"
path put_service_config = codes "/admin.v1.GitOpsService/PutServiceConfig"

abbrev pub request_stream : Method → Bool
request_stream get_sops_public_key = false
request_stream rotate_sops_key = false
request_stream list_sops_keys = false
request_stream prune_sops_key = false
request_stream register_repository = false
request_stream list_repositories = false
request_stream remove_repository = false
request_stream trigger_sync = false
request_stream sync_bundle = true
request_stream patch_service_config = false
request_stream get_service_config = false
request_stream put_service_config = false

abbrev pub response_stream : Method → Bool
response_stream get_sops_public_key = false
response_stream rotate_sops_key = false
response_stream list_sops_keys = false
response_stream prune_sops_key = false
response_stream register_repository = false
response_stream list_repositories = false
response_stream remove_repository = false
response_stream trigger_sync = false
response_stream sync_bundle = false
response_stream patch_service_config = false
response_stream get_service_config = false
response_stream put_service_config = false

abbrev pub Request : Method → Type 0
Request get_sops_public_key = GetSopsPublicKeyRequest.GetSopsPublicKeyRequest
Request rotate_sops_key = RotateSopsKeyRequest.RotateSopsKeyRequest
Request list_sops_keys = ListSopsKeysRequest.ListSopsKeysRequest
Request prune_sops_key = PruneSopsKeyRequest.PruneSopsKeyRequest
Request register_repository = RegisterRepositoryRequest.RegisterRepositoryRequest
Request list_repositories = ListRepositoriesRequest.ListRepositoriesRequest
Request remove_repository = RemoveRepositoryRequest.RemoveRepositoryRequest
Request trigger_sync = TriggerSyncRequest.TriggerSyncRequest
Request sync_bundle = SyncBundleChunk.SyncBundleChunk
Request patch_service_config = PatchServiceConfigRequest.PatchServiceConfigRequest
Request get_service_config = GetServiceConfigRequest.GetServiceConfigRequest
Request put_service_config = PutServiceConfigRequest.PutServiceConfigRequest

abbrev pub Response : Method → Type 0
Response get_sops_public_key = GetSopsPublicKeyResponse.GetSopsPublicKeyResponse
Response rotate_sops_key = RotateSopsKeyResponse.RotateSopsKeyResponse
Response list_sops_keys = ListSopsKeysResponse.ListSopsKeysResponse
Response prune_sops_key = PruneSopsKeyResponse.PruneSopsKeyResponse
Response register_repository = RegisterRepositoryResponse.RegisterRepositoryResponse
Response list_repositories = ListRepositoriesResponse.ListRepositoriesResponse
Response remove_repository = RemoveRepositoryResponse.RemoveRepositoryResponse
Response trigger_sync = TriggerSyncResponse.TriggerSyncResponse
Response sync_bundle = SyncBundleResponse.SyncBundleResponse
Response patch_service_config = PatchServiceConfigResponse.PatchServiceConfigResponse
Response get_service_config = GetServiceConfigResponse.GetServiceConfigResponse
Response put_service_config = PutServiceConfigResponse.PutServiceConfigResponse

module _ (lib : Protobuf) where
  unfoldable pub request_serialize : (method : Method) → Request method → Outcome (List ℕ)
  request_serialize get_sops_public_key = GetSopsPublicKeyRequest.encode lib
  request_serialize rotate_sops_key = RotateSopsKeyRequest.encode lib
  request_serialize list_sops_keys = ListSopsKeysRequest.encode lib
  request_serialize prune_sops_key = PruneSopsKeyRequest.encode lib
  request_serialize register_repository = RegisterRepositoryRequest.encode lib
  request_serialize list_repositories = ListRepositoriesRequest.encode lib
  request_serialize remove_repository = RemoveRepositoryRequest.encode lib
  request_serialize trigger_sync = TriggerSyncRequest.encode lib
  request_serialize sync_bundle = SyncBundleChunk.encode lib
  request_serialize patch_service_config = PatchServiceConfigRequest.encode lib
  request_serialize get_service_config = GetServiceConfigRequest.encode lib
  request_serialize put_service_config = PutServiceConfigRequest.encode lib

  unfoldable pub response_serialize : (method : Method) → Response method → Outcome (List ℕ)
  response_serialize get_sops_public_key = GetSopsPublicKeyResponse.encode lib
  response_serialize rotate_sops_key = RotateSopsKeyResponse.encode lib
  response_serialize list_sops_keys = ListSopsKeysResponse.encode lib
  response_serialize prune_sops_key = PruneSopsKeyResponse.encode lib
  response_serialize register_repository = RegisterRepositoryResponse.encode lib
  response_serialize list_repositories = ListRepositoriesResponse.encode lib
  response_serialize remove_repository = RemoveRepositoryResponse.encode lib
  response_serialize trigger_sync = TriggerSyncResponse.encode lib
  response_serialize sync_bundle = SyncBundleResponse.encode lib
  response_serialize patch_service_config = PatchServiceConfigResponse.encode lib
  response_serialize get_service_config = GetServiceConfigResponse.encode lib
  response_serialize put_service_config = PutServiceConfigResponse.encode lib

  unfoldable pub request_deserialize : (method : Method) → List ℕ → Read (Request method)
  unfolding GetSopsPublicKeyRequest.decode RotateSopsKeyRequest.decode ListSopsKeysRequest.decode
      PruneSopsKeyRequest.decode RegisterRepositoryRequest.decode ListRepositoriesRequest.decode
      RemoveRepositoryRequest.decode TriggerSyncRequest.decode SyncBundleChunk.decode
      PatchServiceConfigRequest.decode GetServiceConfigRequest.decode PutServiceConfigRequest.decode
  request_deserialize get_sops_public_key bs =
      GetSopsPublicKeyRequest.decode lib decode_levels none (from_bytes bs)
  request_deserialize rotate_sops_key bs =
      RotateSopsKeyRequest.decode lib decode_levels none (from_bytes bs)
  request_deserialize list_sops_keys bs =
      ListSopsKeysRequest.decode lib decode_levels none (from_bytes bs)
  request_deserialize prune_sops_key bs =
      PruneSopsKeyRequest.decode lib decode_levels none (from_bytes bs)
  request_deserialize register_repository bs =
      RegisterRepositoryRequest.decode lib decode_levels none (from_bytes bs)
  request_deserialize list_repositories bs =
      ListRepositoriesRequest.decode lib decode_levels none (from_bytes bs)
  request_deserialize remove_repository bs =
      RemoveRepositoryRequest.decode lib decode_levels none (from_bytes bs)
  request_deserialize trigger_sync bs =
      TriggerSyncRequest.decode lib decode_levels none (from_bytes bs)
  request_deserialize sync_bundle bs = SyncBundleChunk.decode lib decode_levels none (from_bytes bs)
  request_deserialize patch_service_config bs =
      PatchServiceConfigRequest.decode lib decode_levels none (from_bytes bs)
  request_deserialize get_service_config bs =
      GetServiceConfigRequest.decode lib decode_levels none (from_bytes bs)
  request_deserialize put_service_config bs =
      PutServiceConfigRequest.decode lib decode_levels none (from_bytes bs)

  unfoldable pub response_deserialize : (method : Method) → List ℕ → Read (Response method)
  unfolding GetSopsPublicKeyResponse.decode RotateSopsKeyResponse.decode ListSopsKeysResponse.decode
      PruneSopsKeyResponse.decode RegisterRepositoryResponse.decode ListRepositoriesResponse.decode
      RemoveRepositoryResponse.decode TriggerSyncResponse.decode SyncBundleResponse.decode
      PatchServiceConfigResponse.decode GetServiceConfigResponse.decode
      PutServiceConfigResponse.decode
  response_deserialize get_sops_public_key bs =
      GetSopsPublicKeyResponse.decode lib decode_levels none (from_bytes bs)
  response_deserialize rotate_sops_key bs =
      RotateSopsKeyResponse.decode lib decode_levels none (from_bytes bs)
  response_deserialize list_sops_keys bs =
      ListSopsKeysResponse.decode lib decode_levels none (from_bytes bs)
  response_deserialize prune_sops_key bs =
      PruneSopsKeyResponse.decode lib decode_levels none (from_bytes bs)
  response_deserialize register_repository bs =
      RegisterRepositoryResponse.decode lib decode_levels none (from_bytes bs)
  response_deserialize list_repositories bs =
      ListRepositoriesResponse.decode lib decode_levels none (from_bytes bs)
  response_deserialize remove_repository bs =
      RemoveRepositoryResponse.decode lib decode_levels none (from_bytes bs)
  response_deserialize trigger_sync bs =
      TriggerSyncResponse.decode lib decode_levels none (from_bytes bs)
  response_deserialize sync_bundle bs =
      SyncBundleResponse.decode lib decode_levels none (from_bytes bs)
  response_deserialize patch_service_config bs =
      PatchServiceConfigResponse.decode lib decode_levels none (from_bytes bs)
  response_deserialize get_service_config bs =
      GetServiceConfigResponse.decode lib decode_levels none (from_bytes bs)
  response_deserialize put_service_config bs =
      PutServiceConfigResponse.decode lib decode_levels none (from_bytes bs)
