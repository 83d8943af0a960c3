-- ===== src/Secrets/Tolerance.antt =====
-- typescript/src/gen/signet/v1/secrets.ts: fields that a message does not have, and numbers that a
-- field cannot hold, on the stream of restart locks.
use signet_clients.Prelude.{
  ℕ, zero, suc, ◌%◌, ◌^◌, ◌<◌, false, none, List, [], ◌∷◌, ◌++◌, length, ◌≡◌, ◌≢◌, refl, arith,
}
use signet_clients.Prelude.Int.{ℤ, pos, negsuc}
use signet_clients.Runtime.{Text, JsValue, Outcome, resolved, rejected}
use signet_clients.Wire.{Protobuf, ok, ends_message}
use signet_clients.Wire.Laws.{IsLawful, ReadsBack, InInt32, reader_at}
use signet_clients.Wire.Fields.{◌⊕◌, string_field, int32_field, bool_field}
use signet_clients.Wire.Feeding.{Eats-skipped, Writes-then}
use signet_clients.Wire.Statements.{Writes-of}
use signet_clients.Wire.Reading.{decode_all}
use signet_clients.Timestamp.Dates.{IsExact}
use signet_clients.Secrets.AcquireRestartLockRequest
use signet_clients.Secrets.AcquireRestartLockResponse
use signet_clients.Secrets.Service.{
  acquire_restart_lock, request_serialize, response_serialize, response_deserialize,
}

goes_on : (tag : ℕ) → tag ≢ 0 → tag % 8 ≢ 4 → ends_message tag ≡ false
unfolding ends_message
goes_on tag a b = ground arith

is_unknown :
    (lib : Protobuf) (millis_sum : ℤ → ℤ → ℤ) (tag : ℕ)
    → tag ≢ 8
    → tag ≢ 16
    → tag ≢ 26
    → tag ≢ 34
    → AcquireRestartLockResponse.read_field lib millis_sum 99 tag
        AcquireRestartLockResponse.create_base
      ≡ none
unfolding AcquireRestartLockResponse.read_field
is_unknown lib millis_sum tag a b c d = ground arith

-- A response on the stream of restart locks whose serialization does not throw is read as it was
-- written, behind a field that it does not have: one whose tag is a 32-bit number and none of its
-- four, is not zero and does not end a group, and whose bytes the package's reader skips. The token
-- has no lone surrogate, the date, if there is one, is valid, the package's writer and reader keep
-- their laws, and sums of doubles are exact for whole milliseconds.
pub response-skips :
    {lib : Protobuf} (laws : IsLawful lib) {millis_sum : ℤ → ℤ → ℤ} (exact : IsExact millis_sum)
    (m : AcquireRestartLockResponse.AcquireRestartLockResponse) (bs : List ℕ) (tag : ℕ)
    (field : List ℕ)
    → AcquireRestartLockResponse.IsValid m
    → response_serialize lib acquire_restart_lock m ≡ resolved bs
    → tag < 2 ^ 32
    → tag ≢ 8
    → tag ≢ 16
    → tag ≢ 26
    → tag ≢ 34
    → tag ≢ 0
    → tag % 8 ≢ 4
    → ReadsBack (lib.skip (tag % 8)) field tt
    → response_deserialize lib millis_sum acquire_restart_lock (lib.write_uint32 tag ++ field ++ bs)
      ≡ ok m (reader_at (length (lib.write_uint32 tag ++ field ++ bs)) [])
unfolding response_serialize response_deserialize AcquireRestartLockResponse.decode
response-skips {lib} laws {millis_sum} exact m bs tag field valid written small a b c d e f skips =
    decode_all (AcquireRestartLockResponse.read_field lib millis_sum)
      AcquireRestartLockResponse.create_base 99 (lib.write_uint32 tag ++ field ++ bs)
      (Writes-then
        (Writes-of (
          Eats-skipped laws tag field AcquireRestartLockResponse.create_base small
            (is_unknown lib millis_sum tag a b c d) (goes_on tag e f) skips))
        (AcquireRestartLockResponse.encode-Writes laws exact 98 m valid))
      (rw written refl)

⊕-rejects :
    (w v : Outcome (List ℕ)) {e : JsValue}
    → (bs : List ℕ) × (w ≡ resolved bs)
    → v ≡ rejected e
    → w ⊕ v ≡ rejected e
⊕-rejects w v (bs, h) k = rw (h, k) refl

rejects-⊕ : (w v : Outcome (List ℕ)) {e : JsValue} → w ≡ rejected e → w ⊕ v ≡ rejected e
rejects-⊕ w v h = rw h refl

pub string_resolves :
    (lib : Protobuf) (tag : ℕ) (s : Text) → (bs : List ℕ) × (string_field lib tag s ≡ resolved bs)
unfolding string_field
string_resolves lib tag [] = ([], refl)
string_resolves lib tag (c ∷ s) = (_, refl)

int32_rejects :
    {lib : Protobuf} (laws : IsLawful lib) (tag : ℕ) (v : ℤ)
    → (InInt32 v → ⊥)
    → (e : JsValue) × (int32_field lib tag v ≡ rejected e)
unfolding int32_field
int32_rejects laws tag (pos zero) out = absurd (out (omega arith, omega arith))
int32_rejects laws tag (pos (suc n)) out =
    let (e, h) = laws.int32_out_of_range (pos (suc n)) out in (e, rw h refl)
int32_rejects laws tag (negsuc n) out =
    let (e, h) = laws.int32_out_of_range (negsuc n) out in (e, rw h refl)

-- A TTL that no int32 holds is not sent: the serialization throws. The package's writer keeps its laws.
pub request-rejects :
    {lib : Protobuf} (laws : IsLawful lib) (q : AcquireRestartLockRequest.AcquireRestartLockRequest)
    → (InInt32 q.ttl_seconds → ⊥)
    → (e : JsValue) × (request_serialize lib acquire_restart_lock q ≡ rejected e)
unfolding request_serialize AcquireRestartLockRequest.encode
request-rejects {lib} laws q out =
    let (e, too_large) = int32_rejects laws 24 q.ttl_seconds out in
    (
      e,
      ⊕-rejects _ _ (string_resolves lib 10 q.namespace) (
          ⊕-rejects _ _ (string_resolves lib 18 q.service) (
            rejects-⊕ (int32_field lib 24 q.ttl_seconds) (bool_field lib 32 q.heartbeat)
              too_large)),
    )
