-- ===== src/JsonPatch.antt =====
-- typescript/src/jsonpatch.ts: the constructors of the operations that a patch of a service's
-- configuration has.
pub mod Reading
pub mod Arriving
pub mod Tests
use signet_clients.Prelude.{◌++◌, []}
use signet_clients.Runtime.{Text, codes}
use signet_clients.Structs.{Any, undefined}
use signet_clients.Admin.JsonPatchOperation.{JsonPatchOperation}

unfoldable pub json_patch_append : Text → Any → JsonPatchOperation
json_patch_append path value = record {
  op = codes "add";
  path = path ++ codes "/-";
  from = [];
  value = value;
}

unfoldable pub json_patch_add : Text → Any → JsonPatchOperation
json_patch_add path value = record { op = codes "add"; path = path; from = []; value = value }

unfoldable pub json_patch_replace : Text → Any → JsonPatchOperation
json_patch_replace path value = record {
  op = codes "replace";
  path = path;
  from = [];
  value = value;
}

unfoldable pub json_patch_remove : Text → JsonPatchOperation
json_patch_remove path = record { op = codes "remove"; path = path; from = []; value = undefined }

unfoldable pub json_patch_test : Text → Any → JsonPatchOperation
json_patch_test path value = record { op = codes "test"; path = path; from = []; value = value }
