-- ===== src/Structs/Losing.antt =====
-- typescript/src/gen/google/protobuf/struct.ts: what becomes of a property called `__proto__`.
use signet_clients.Runtime.{Text, codes}
use signet_clients.Structs.{Any, Entries, entry}
use signet_clients.Structs.Wrapping.{behind}

abbrev pub proto_key : Text
proto_key = codes "__proto__"

-- An object with that property between others.
abbrev pub with_proto : Entries → Any → Entries → Entries
with_proto before v after = behind before (entry proto_key v after)
