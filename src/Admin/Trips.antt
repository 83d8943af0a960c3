-- ===== src/Admin/Trips.antt =====
-- typescript/src/gen/admin/v1/admin.ts: what the GitOpsService's two ends hand each other.
use signet_clients.Prelude.{ℕ, List, [], length, ◌≡◌, ◌≢◌}
use signet_clients.Runtime.{resolved}
use signet_clients.Wire.{Protobuf, ok, spent}
use signet_clients.Wire.Laws.{IsLawful, ReadsOn, reader_at}
use signet_clients.Wire.Reading.{decode_all}
use signet_clients.Wire.Messages.{decode-ends}
use signet_clients.Admin.Service.{
  Method, get_sops_public_key, rotate_sops_key, list_sops_keys, prune_sops_key, register_repository,
  list_repositories, remove_repository, trigger_sync, sync_bundle, patch_service_config,
  get_service_config, put_service_config, Request, Response, request_serialize, response_serialize,
  request_deserialize, response_deserialize,
}
use signet_clients.Admin.GetSopsPublicKeyRequest
use signet_clients.Admin.GetSopsPublicKeyResponse
use signet_clients.Admin.RotateSopsKeyRequest
use signet_clients.Admin.RotateSopsKeyResponse
use signet_clients.Admin.ListSopsKeysRequest
use signet_clients.Admin.ListSopsKeysResponse
use signet_clients.Admin.PruneSopsKeyRequest
use signet_clients.Admin.PruneSopsKeyResponse
use signet_clients.Admin.RegisterRepositoryRequest
use signet_clients.Admin.RegisterRepositoryResponse
use signet_clients.Admin.ListRepositoriesRequest
use signet_clients.Admin.ListRepositoriesResponse
use signet_clients.Admin.RemoveRepositoryRequest
use signet_clients.Admin.RemoveRepositoryResponse
use signet_clients.Admin.TriggerSyncRequest
use signet_clients.Admin.TriggerSyncResponse
use signet_clients.Admin.SyncBundleChunk
use signet_clients.Admin.SyncBundleResponse
use signet_clients.Admin.PatchServiceConfigRequest
use signet_clients.Admin.PatchServiceConfigResponse
use signet_clients.Admin.GetServiceConfigRequest
use signet_clients.Admin.GetServiceConfigResponse
use signet_clients.Admin.PutServiceConfigRequest
use signet_clients.Admin.PutServiceConfigResponse

abbrev pub IsValidRequest : (method : Method) → Request method → Type 0
IsValidRequest get_sops_public_key = GetSopsPublicKeyRequest.IsValid
IsValidRequest rotate_sops_key = RotateSopsKeyRequest.IsValid
IsValidRequest list_sops_keys = ListSopsKeysRequest.IsValid
IsValidRequest prune_sops_key = PruneSopsKeyRequest.IsValid
IsValidRequest register_repository = RegisterRepositoryRequest.IsValid
IsValidRequest list_repositories = ListRepositoriesRequest.IsValid
IsValidRequest remove_repository = RemoveRepositoryRequest.IsValid
IsValidRequest trigger_sync = TriggerSyncRequest.IsValid
IsValidRequest sync_bundle = SyncBundleChunk.IsValid
IsValidRequest patch_service_config = PatchServiceConfigRequest.IsValid 98
IsValidRequest get_service_config = GetServiceConfigRequest.IsValid
IsValidRequest put_service_config = PutServiceConfigRequest.IsValid 99

abbrev pub IsValidResponse : (method : Method) → Response method → Type 0
IsValidResponse get_sops_public_key = GetSopsPublicKeyResponse.IsValid
IsValidResponse rotate_sops_key = RotateSopsKeyResponse.IsValid
IsValidResponse list_sops_keys = ListSopsKeysResponse.IsValid
IsValidResponse prune_sops_key = PruneSopsKeyResponse.IsValid
IsValidResponse register_repository = RegisterRepositoryResponse.IsValid
IsValidResponse list_repositories = ListRepositoriesResponse.IsValid
IsValidResponse remove_repository = RemoveRepositoryResponse.IsValid
IsValidResponse trigger_sync = TriggerSyncResponse.IsValid
IsValidResponse sync_bundle = SyncBundleResponse.IsValid
IsValidResponse patch_service_config = PatchServiceConfigResponse.IsValid
IsValidResponse get_service_config = GetServiceConfigResponse.IsValid 99
IsValidResponse put_service_config = PutServiceConfigResponse.IsValid

module _ {lib : Protobuf} (laws : IsLawful lib) where
  -- If the serialization of a request does not throw, then deserializing its bytes gives the request
  -- back and reads them all, for every method: if its texts have no lone surrogate,
  -- and its documents are plain and nest no more calls of `decode` than are left.
  -- The package's writer and reader keep their laws.
  pub deserialize-serialize_request :
      (method : Method) (m : Request method) (bs : List ℕ)
      → IsValidRequest method m
      → request_serialize lib method m ≡ resolved bs
      → request_deserialize lib method bs ≡ ok m (reader_at (length bs) [])
  unfolding request_serialize request_deserialize
  deserialize-serialize_request get_sops_public_key m bs valid h =
      decode_all _ _ 99 bs (GetSopsPublicKeyRequest.encode-Writes laws 99 m valid) h
  deserialize-serialize_request rotate_sops_key m bs valid h =
      decode_all _ _ 99 bs (RotateSopsKeyRequest.encode-Writes laws 99 m valid) h
  deserialize-serialize_request list_sops_keys m bs valid h =
      decode_all _ _ 99 bs (ListSopsKeysRequest.encode-Writes laws 99 m valid) h
  deserialize-serialize_request prune_sops_key m bs valid h =
      decode_all _ _ 99 bs (PruneSopsKeyRequest.encode-Writes laws 99 m valid) h
  deserialize-serialize_request register_repository m bs valid h =
      decode_all _ _ 99 bs (RegisterRepositoryRequest.encode-Writes laws 99 m valid) h
  deserialize-serialize_request list_repositories m bs valid h =
      decode_all _ _ 99 bs (ListRepositoriesRequest.encode-Writes laws 99 m valid) h
  deserialize-serialize_request remove_repository m bs valid h =
      decode_all _ _ 99 bs (RemoveRepositoryRequest.encode-Writes laws 99 m valid) h
  deserialize-serialize_request trigger_sync m bs valid h =
      decode_all _ _ 99 bs (TriggerSyncRequest.encode-Writes laws 99 m valid) h
  deserialize-serialize_request sync_bundle m bs valid h =
      decode_all _ _ 99 bs (SyncBundleChunk.encode-Writes laws 98 m valid) h
  deserialize-serialize_request patch_service_config m bs valid h =
      decode_all _ _ 99 bs (PatchServiceConfigRequest.encode-Writes laws 98 m valid) h
  deserialize-serialize_request get_service_config m bs valid h =
      decode_all _ _ 99 bs (GetServiceConfigRequest.encode-Writes laws 99 m valid) h
  deserialize-serialize_request put_service_config m bs valid h =
      decode_all _ _ 99 bs (PutServiceConfigRequest.encode-Writes laws 99 m valid) h

module _ {lib : Protobuf} (onward : ReadsOn lib) where
  request_ends : (method : Method) (bs : List ℕ) → request_deserialize lib method bs ≢ spent
  unfolding request_deserialize
  request_ends get_sops_public_key bs =
      decode-ends onward _ _ (GetSopsPublicKeyRequest.ends onward) bs
  request_ends rotate_sops_key bs = decode-ends onward _ _ (RotateSopsKeyRequest.ends onward) bs
  request_ends list_sops_keys bs = decode-ends onward _ _ (ListSopsKeysRequest.ends onward) bs
  request_ends prune_sops_key bs = decode-ends onward _ _ (PruneSopsKeyRequest.ends onward) bs
  request_ends register_repository bs =
      decode-ends onward _ _ (RegisterRepositoryRequest.ends onward) bs
  request_ends list_repositories bs =
      decode-ends onward _ _ (ListRepositoriesRequest.ends onward) bs
  request_ends remove_repository bs =
      decode-ends onward _ _ (RemoveRepositoryRequest.ends onward) bs
  request_ends trigger_sync bs = decode-ends onward _ _ (TriggerSyncRequest.ends onward) bs
  request_ends sync_bundle bs = decode-ends onward _ _ (SyncBundleChunk.ends onward) bs
  request_ends patch_service_config bs =
      decode-ends onward _ _ (PatchServiceConfigRequest.ends onward) bs
  request_ends get_service_config bs =
      decode-ends onward _ _ (GetServiceConfigRequest.ends onward) bs
  request_ends put_service_config bs =
      decode-ends onward _ _ (PutServiceConfigRequest.ends onward) bs

module _ {lib : Protobuf} (laws : IsLawful lib) where
  -- If the serialization of a response does not throw, then deserializing its bytes gives the response
  -- back and reads them all, for every method: if its texts have no lone surrogate, and its
  -- document is plain and nests no more than 99 calls of `decode`. The package's writer and reader
  -- keep their laws.
  pub deserialize-serialize_response :
      (method : Method) (m : Response method) (bs : List ℕ)
      → IsValidResponse method m
      → response_serialize lib method m ≡ resolved bs
      → response_deserialize lib method bs ≡ ok m (reader_at (length bs) [])
  unfolding response_serialize response_deserialize
  deserialize-serialize_response get_sops_public_key m bs valid h =
      decode_all _ _ 99 bs (GetSopsPublicKeyResponse.encode-Writes laws 99 m valid) h
  deserialize-serialize_response rotate_sops_key m bs valid h =
      decode_all _ _ 99 bs (RotateSopsKeyResponse.encode-Writes laws 99 m valid) h
  deserialize-serialize_response list_sops_keys m bs valid h =
      decode_all _ _ 99 bs (ListSopsKeysResponse.encode-Writes laws 98 m valid) h
  deserialize-serialize_response prune_sops_key m bs valid h =
      decode_all _ _ 99 bs (PruneSopsKeyResponse.encode-Writes laws 99 m valid) h
  deserialize-serialize_response register_repository m bs valid h =
      decode_all _ _ 99 bs (RegisterRepositoryResponse.encode-Writes laws 99 m valid) h
  deserialize-serialize_response list_repositories m bs valid h =
      decode_all _ _ 99 bs (ListRepositoriesResponse.encode-Writes laws 98 m valid) h
  deserialize-serialize_response remove_repository m bs valid h =
      decode_all _ _ 99 bs (RemoveRepositoryResponse.encode-Writes laws 99 m valid) h
  deserialize-serialize_response trigger_sync m bs valid h =
      decode_all _ _ 99 bs (TriggerSyncResponse.encode-Writes laws 99 m valid) h
  deserialize-serialize_response sync_bundle m bs valid h =
      decode_all _ _ 99 bs (SyncBundleResponse.encode-Writes laws 99 m valid) h
  deserialize-serialize_response patch_service_config m bs valid h =
      decode_all _ _ 99 bs (PatchServiceConfigResponse.encode-Writes laws 99 m valid) h
  deserialize-serialize_response get_service_config m bs valid h =
      decode_all _ _ 99 bs (GetServiceConfigResponse.encode-Writes laws 99 m valid) h
  deserialize-serialize_response put_service_config m bs valid h =
      decode_all _ _ 99 bs (PutServiceConfigResponse.encode-Writes laws 99 m valid) h

module _ {lib : Protobuf} (onward : ReadsOn lib) where
  response_ends : (method : Method) (bs : List ℕ) → response_deserialize lib method bs ≢ spent
  unfolding response_deserialize
  response_ends get_sops_public_key bs =
      decode-ends onward _ _ (GetSopsPublicKeyResponse.ends onward) bs
  response_ends rotate_sops_key bs = decode-ends onward _ _ (RotateSopsKeyResponse.ends onward) bs
  response_ends list_sops_keys bs = decode-ends onward _ _ (ListSopsKeysResponse.ends onward) bs
  response_ends prune_sops_key bs = decode-ends onward _ _ (PruneSopsKeyResponse.ends onward) bs
  response_ends register_repository bs =
      decode-ends onward _ _ (RegisterRepositoryResponse.ends onward) bs
  response_ends list_repositories bs =
      decode-ends onward _ _ (ListRepositoriesResponse.ends onward) bs
  response_ends remove_repository bs =
      decode-ends onward _ _ (RemoveRepositoryResponse.ends onward) bs
  response_ends trigger_sync bs = decode-ends onward _ _ (TriggerSyncResponse.ends onward) bs
  response_ends sync_bundle bs = decode-ends onward _ _ (SyncBundleResponse.ends onward) bs
  response_ends patch_service_config bs =
      decode-ends onward _ _ (PatchServiceConfigResponse.ends onward) bs
  response_ends get_service_config bs =
      decode-ends onward _ _ (GetServiceConfigResponse.ends onward) bs
  response_ends put_service_config bs =
      decode-ends onward _ _ (PutServiceConfigResponse.ends onward) bs

  -- Whatever the bytes, reading them as a request or as a response of any method comes to an end, by
  -- returning or by throwing.
  pub deserialize-always_ends :
      (method : Method) (bs : List ℕ)
      → (request_deserialize lib method bs ≢ spent) × (response_deserialize lib method bs ≢ spent)
  deserialize-always_ends method bs = (request_ends onward method bs, response_ends method bs)
