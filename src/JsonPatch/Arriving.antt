-- ===== src/JsonPatch/Arriving.antt =====
-- typescript/src/jsonpatch.ts: patches that are built, written, and read by the server.
use signet_clients.Prelude.{List, map}
use signet_clients.Runtime.{Text}
use signet_clients.Wire.Laws.{IsText}
use signet_clients.Structs.Fields.{CanReturn}
use signet_clients.Admin.JsonPatchOperation
use signet_clients.Admin.PatchServiceConfigRequest
use signet_clients.JsonPatch.Reading.{Change, append, add, replace, test, remove, operation_of}

-- The path has no lone surrogate, and the value can be read back at the depth of an operation's.
abbrev pub IsSendable : Change → Type 0
IsSendable (append path v) = IsText path × CanReturn 98 v
IsSendable (add path v) = IsText path × CanReturn 98 v
IsSendable (replace path v) = IsText path × CanReturn 98 v
IsSendable (test path v) = IsText path × CanReturn 98 v
IsSendable (remove path) = IsText path

abbrev pub patch_request :
    Text → Text → List Change → PatchServiceConfigRequest.PatchServiceConfigRequest
patch_request namespace service changes = record {
  namespace = namespace;
  service = service;
  operations = map operation_of changes;
}
