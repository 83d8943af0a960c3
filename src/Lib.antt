-- ===== src/Lib.antt =====
-- The TypeScript client of signet, a service that keeps secrets and restart locks: its messages and
-- their wire format, its streams, its watch for bundle changes and its restart lock, with the
-- theorems that make them correct. Paths are from the repository's root.
--
-- Parts and files:
-- - Prelude: numbers, Booleans and lists that all parts share.
-- - Runtime: what the code uses of JavaScript: texts as lists of UTF-16 code units, thrown values,
--   errors with their class, outcomes of promises, the AbortSignal, and a store of promises.
-- - Errors: typescript/src/errors.ts (asError, errMessage, abortedError, raceAbort).
-- - Mailbox: typescript/src/async-mailbox.ts (AsyncMailbox: pushValue, pushTerminal, next).
-- - Streams: typescript/src/restart.ts, lockStreamFromGrpc and watchStreamFromGrpc, which put a
--   grpc-js stream behind a mailbox.
-- - BundleWatch: typescript/src/restart.ts, class BundleWatch (_signalChange, _close, next).
-- - WatchLoop: typescript/src/restart.ts, runWatchLoop, nextBackoff and sleepOrAborted. The loop
--   dials, receives, sleeps and dials again, and signals a BundleWatch.
-- - WatchBundle: typescript/src/restart.ts, the dial of watchBundle.
-- - Lock: typescript/src/restart.ts, class Lock and the messages of its stream.
-- - LockSession: typescript/src/restart.ts, acquireLockWithStream, the heartbeat timer and
--   Lock.release, over any LockStream; Streams gives one.
-- - AcquireLock: typescript/src/restart.ts, acquireLock, which opens the stream of a session; its
--   child Arriving follows the request that a session sends to the decode of the server, and its
--   child Answering the server's responses to the session.
-- - WaitForRestart: typescript/src/restart.ts, waitForRestart up to its call of acquireLock, and
--   debounceUntilQuiet.
-- - Strings: the methods of strings that workload.ts and client.ts call.
-- - Workload: typescript/src/workload.ts, retryUntilIdentityIssued and the check of the server's
--   SPIFFE identity; its child Credentials has fetchFirstX509SVID, credentialsFromSVID and
--   workloadChannelCredentials.
-- - Pem: typescript/src/workload.ts, derToPem, with the base64 text that Node's Buffer gives.
-- - Client: typescript/src/client.ts, adminTransportMode, isLoopbackHost and hostOf; its child Dial
--   has normalizeCAPem, adminChannelCredentials, authInterceptor, mergeAuthInterceptor, dialAdmin
--   and gitOpsClient.
-- - SopsEncrypt: typescript/src/sopsEncrypt.ts (encryptForSecret, gcmSealSopsEnc).
-- - Wire: what the generated messages of typescript/src/gen share: the loop of decode, and the
--   statements that write and read a field of each kind. Its child Messages passes on what a
--   message's module needs.
-- - Timestamp: typescript/src/gen/google/protobuf/timestamp.ts, and toTimestamp and fromTimestamp of
--   typescript/src/gen/signet/v1/secrets.ts.
-- - Structs: typescript/src/gen/google/protobuf/struct.ts (Struct, Struct_FieldsEntry, Value and
--   ListValue: encode, decode, wrap and unwrap). Its child Encoding has the calls of encode and wrap
--   as the code makes them; encode_content, encode_struct and encode_items, which the messages use,
--   are one recursion over the parts of a document.
-- - Secrets: typescript/src/gen/signet/v1/secrets.ts, a module per message with its encode, decode,
--   create and fromPartial; Enumerations has the enums, Service the definition of the
--   SecretsService.
-- - Admin: typescript/src/gen/admin/v1/admin.ts, in the same way, for the messages of the
--   GitOpsService and its definition. Its documents are those of Structs.
-- - JsonPatch: typescript/src/jsonpatch.ts, the constructors of JsonPatchOperation; its child
--   Reading describes what RFC 6902 makes of an operation, and its child Arriving follows a patch to
--   the decode of the server.
--
-- How the code is modelled:
-- - A promise that an operation hands out is a number in a store, which says what each has settled
--   to. The operation that settles it is the one that does so in the code.
-- - An async function stands at one of its awaits. Events settle the awaited promise, fire the
--   signal, or let the function go on; an event that the code does not wait for changes nothing. A
--   sequence of events is an interleaving.
-- - A stream of a lock is any type with send and closeSend, each with the value that it throws, if
--   any. The outcomes of its recv are events. It is assumed that recv returns a promise, and that
--   neither a listener of the 'lost' event nor dispatching it throws.
-- - Times are numbers of milliseconds. An interval and a backoff are natural numbers. A TTL is a
--   finite fraction with a sign, or NaN or an infinity. Of the rounding of floating-point numbers
--   only that of `Number(int64.toString())` is modelled, for integers below 2 ^ 64.
-- - Sessions and loops of async functions are run by lists of events. The retry loop, the loop of
--   derToPem and the matches of normalizeCAPem's pattern take fuel: the number of attempts, and the
--   length of the text, since each iteration takes at least one code unit.
-- - Libraries that are not part of the repository (the SPIFFE Workload API, gRPC, the parser of
--   certificates, ciphers and hashes, age, the printing of YAML, the coding of texts as UTF-8) are
--   records of functions that the definitions take.
-- - BinaryReader and BinaryWriter of the package @bufbuild/protobuf are such a record, Protobuf. A
--   reader is a position and the bytes from there on. A writer's operation gives the bytes that it
--   appends, and `join` those that fork and join put around a message. IsLawful says that the reader
--   reads back what the writer writes, for the values that a field can hold: a text without lone
--   surrogates, a 32-bit or a safe integer. ReadsOn, a part of it, says only that the reader moves on.
-- - The loop of decode has fuel: one more than the bytes that the reader has left. That is enough,
--   since each iteration reads a tag, which takes a byte at least. The depth of nested calls that
--   the code counts up to its limit of 100 is counted down, as the levels left.
-- - An integer field is an integer, a field of an enum is its number, and a double is its 64 bits.
-- - A Date is a number of milliseconds between -8.64e15 and 8.64e15, or invalid. The sum of doubles
--   that fromTimestamp forms is a parameter.
-- - The calls of encode in Structs/Encoding.antt nest to a number of levels, below which they throw;
--   the depth of the document is enough.
-- - A document of type any is null, undefined, a Boolean, a number, a text, an array, an object, or of
--   another type, which wrap refuses. An object is the list of its properties in the order of
--   insertion; the order that JavaScript gives to keys that are array indices is not kept. Assigning
--   to `__proto__` makes no property.
--
-- Not modelled: the other languages' clients and the examples; fromJSON and toJSON of the messages,
-- for which JSON values and the conversions Number and String would have to be described (those of
-- the enums are modelled); the messages of the AdminService and its definition, and the client
-- stubs, which hand their arguments to grpc-js; and functions that only construct a gRPC
-- client or read a file.
pub mod Prelude
pub mod Runtime
pub mod Strings
pub mod Errors
pub mod Mailbox
pub mod BundleWatch
pub mod WatchLoop
pub mod Lock
pub mod LockSession
pub mod AcquireLock
pub mod Streams
pub mod WatchBundle
pub mod WaitForRestart
pub mod Workload
pub mod Pem
pub mod Client
pub mod SopsEncrypt
pub mod Wire
pub mod Timestamp
pub mod Structs
pub mod Secrets
pub mod Admin
pub mod JsonPatch
