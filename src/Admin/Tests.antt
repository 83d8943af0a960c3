-- ===== src/Admin/Tests.antt =====
-- The theorems on the GitOpsService's messages at concrete inputs.
use signet_clients.Prelude.{ℕ, true, false, some, List, [], ◌∷◌, ◌++◌, length, ◌≡◌, refl}
use signet_clients.Runtime.{codes}
use signet_clients.Wire.{ok}
use signet_clients.Wire.Laws.{no_lone_surrogate, reader_at}
use signet_clients.Wire.Fields.{
  string_field, bool_field, message_field, optional_bytes_field, repeated_message_field,
}
use signet_clients.Wire.Samples.{sample_package, sample_package-IsLawful}
use signet_clients.Admin.SyncBundleChunk
use signet_clients.Admin.SyncBundleHeader
use signet_clients.Admin.SopsKeyInfo
use signet_clients.Admin.ListSopsKeysResponse
use signet_clients.Admin.Service.{
  sync_bundle, list_sops_keys, request_serialize, response_serialize, request_deserialize,
  response_deserialize,
}
use signet_clients.Admin.Trips.{deserialize-serialize_request, deserialize-serialize_response}

abbrev chunk : SyncBundleChunk.SyncBundleChunk
chunk = record {
  header = some (record { secrets_path = codes "s"; head_sha = []; config_path = codes "c" });
  data_bytes = some (7 ∷ []);
}

-- The header is a message of its own.
abbrev chunk_bytes : List ℕ
chunk_bytes = (10 ∷ 6 ∷ 10 ∷ 1 ∷ codes "s") ++ ((26 ∷ 1 ∷ codes "c") ++ 18 ∷ 1 ∷ 7 ∷ [])

deserialize-serialize_request_example :
    request_deserialize sample_package sync_bundle chunk_bytes
    ≡ ok chunk (reader_at (length chunk_bytes) [])
unfolding request_serialize SyncBundleChunk.encode SyncBundleHeader.encode string_field
    message_field optional_bytes_field no_lone_surrogate
deserialize-serialize_request_example =
    deserialize-serialize_request sample_package-IsLawful sync_bundle chunk chunk_bytes
      (refl, refl, refl) refl

abbrev key : SopsKeyInfo.SopsKeyInfo
key = record {
  public_key = codes "age1";
  fingerprint = [];
  is_active = true;
  created_at = [];
  deactivated_at = [];
  environment = [];
}

abbrev keys : ListSopsKeysResponse.ListSopsKeysResponse
keys = record { keys = key ∷ record key { is_active = false } ∷ [] }

abbrev keys_bytes : List ℕ
keys_bytes = (10 ∷ 8 ∷ 10 ∷ 4 ∷ codes "age1") ++ ((24 ∷ 1 ∷ 10 ∷ 6 ∷ 10 ∷ 4 ∷ codes "age1") ++ [])

deserialize-serialize_response_example :
    response_deserialize sample_package list_sops_keys keys_bytes
    ≡ ok keys (reader_at (length keys_bytes) [])
unfolding response_serialize ListSopsKeysResponse.encode SopsKeyInfo.encode string_field bool_field
    repeated_message_field no_lone_surrogate
deserialize-serialize_response_example =
    deserialize-serialize_response sample_package-IsLawful list_sops_keys keys keys_bytes
      ((refl, refl, refl, refl, refl), ((refl, refl, refl, refl, refl), tt)) refl
