-- ===== src/Secrets/Enumerations.antt =====
-- typescript/src/gen/signet/v1/secrets.ts: the enumerations, as numbers and as their names in JSON.
use signet_clients.Prelude.{ℕ, zero, suc, Bool, false, ◌==◌, if◌then◌else◌, ◌≡◌, refl, arith}
use signet_clients.Prelude.Int.{ℤ, pos, negsuc}
use signet_clients.Runtime.{Text, codes}
use signet_clients.Strings.{same_text}

-- The argument of a conversion from JSON: an integer, a text, or anything else.
pub data JsonEnum : Type 0 where
  number : ℤ → JsonEnum
  text : Text → JsonEnum
  other : JsonEnum

-- `case n: case "NAME":`
is_case : ℕ → Text → JsonEnum → Bool
unfolding same_text
is_case n name (number (pos m)) = m == n
is_case n name (number (negsuc m)) = false
is_case n name (text s) = same_text s name
is_case n name other = false

is_number : ℕ → ℤ → Bool
is_number n (pos m) = m == n
is_number n (negsuc m) = false

-- UNRECOGNIZED.
abbrev pub unrecognized : ℤ
unrecognized = negsuc 0

-- WatchSecretResponse_EventType.
unfoldable pub secret_event_from_json : JsonEnum → ℤ
unfolding is_case
secret_event_from_json object =
    if is_case 0 (codes "EVENT_TYPE_UNSPECIFIED") object
    then pos 0
    else if is_case 1 (codes "EVENT_TYPE_UPDATED") object
    then pos 1
    else if is_case 2 (codes "EVENT_TYPE_DELETED") object
    then pos 2
    else unrecognized

unfoldable pub secret_event_to_json : ℤ → Text
unfolding is_number
secret_event_to_json object =
    if is_number 0 object
    then codes "EVENT_TYPE_UNSPECIFIED"
    else if is_number 1 object
    then codes "EVENT_TYPE_UPDATED"
    else if is_number 2 object
    then codes "EVENT_TYPE_DELETED"
    else codes "UNRECOGNIZED"

-- WatchServiceBundleResponse_EventType.
unfoldable pub bundle_event_from_json : JsonEnum → ℤ
unfolding is_case
bundle_event_from_json object =
    if is_case 0 (codes "EVENT_TYPE_UNSPECIFIED") object
    then pos 0
    else if is_case 1 (codes "EVENT_TYPE_CHANGED") object
    then pos 1
    else unrecognized

unfoldable pub bundle_event_to_json : ℤ → Text
unfolding is_number
bundle_event_to_json object =
    if is_number 0 object
    then codes "EVENT_TYPE_UNSPECIFIED"
    else if is_number 1 object
    then codes "EVENT_TYPE_CHANGED"
    else codes "UNRECOGNIZED"

-- AcquireRestartLockResponse_MessageType.
unfoldable pub message_type_from_json : JsonEnum → ℤ
unfolding is_case
message_type_from_json object =
    if is_case 0 (codes "MESSAGE_TYPE_UNSPECIFIED") object
    then pos 0
    else if is_case 1 (codes "MESSAGE_TYPE_QUEUE_POSITION") object
    then pos 1
    else if is_case 2 (codes "MESSAGE_TYPE_ACQUIRED") object
    then pos 2
    else if is_case 3 (codes "MESSAGE_TYPE_TTL_EXTENDED") object
    then pos 3
    else unrecognized

unfoldable pub message_type_to_json : ℤ → Text
unfolding is_number
message_type_to_json object =
    if is_number 0 object
    then codes "MESSAGE_TYPE_UNSPECIFIED"
    else if is_number 1 object
    then codes "MESSAGE_TYPE_QUEUE_POSITION"
    else if is_number 2 object
    then codes "MESSAGE_TYPE_ACQUIRED"
    else if is_number 3 object
    then codes "MESSAGE_TYPE_TTL_EXTENDED"
    else codes "UNRECOGNIZED"

-- WatchServiceConfigResponse_EventType.
unfoldable pub config_event_from_json : JsonEnum → ℤ
unfolding is_case
config_event_from_json object =
    if is_case 0 (codes "EVENT_TYPE_UNSPECIFIED") object
    then pos 0
    else if is_case 1 (codes "EVENT_TYPE_UPDATED") object
    then pos 1
    else if is_case 2 (codes "EVENT_TYPE_DELETED") object
    then pos 2
    else unrecognized

unfoldable pub config_event_to_json : ℤ → Text
unfolding is_number
config_event_to_json object =
    if is_number 0 object
    then codes "EVENT_TYPE_UNSPECIFIED"
    else if is_number 1 object
    then codes "EVENT_TYPE_UPDATED"
    else if is_number 2 object
    then codes "EVENT_TYPE_DELETED"
    else codes "UNRECOGNIZED"

secret_event_names :
    (n : ℤ)
    → secret_event_from_json (text (secret_event_to_json n)) ≡ secret_event_from_json (number n)
unfolding secret_event_from_json secret_event_to_json
secret_event_names (pos zero) = refl
secret_event_names (pos (suc zero)) = refl
secret_event_names (pos (suc (suc zero))) = refl
secret_event_names (pos (suc (suc (suc n)))) = ground arith
secret_event_names (negsuc n) = refl

bundle_event_names :
    (n : ℤ)
    → bundle_event_from_json (text (bundle_event_to_json n)) ≡ bundle_event_from_json (number n)
unfolding bundle_event_from_json bundle_event_to_json
bundle_event_names (pos zero) = refl
bundle_event_names (pos (suc zero)) = refl
bundle_event_names (pos (suc (suc n))) = ground arith
bundle_event_names (negsuc n) = refl

message_type_names :
    (n : ℤ)
    → message_type_from_json (text (message_type_to_json n)) ≡ message_type_from_json (number n)
unfolding message_type_from_json message_type_to_json
message_type_names (pos zero) = refl
message_type_names (pos (suc zero)) = refl
message_type_names (pos (suc (suc zero))) = refl
message_type_names (pos (suc (suc (suc zero)))) = refl
message_type_names (pos (suc (suc (suc (suc n))))) = ground arith
message_type_names (negsuc n) = refl

config_event_names :
    (n : ℤ)
    → config_event_from_json (text (config_event_to_json n)) ≡ config_event_from_json (number n)
unfolding config_event_from_json config_event_to_json
config_event_names (pos zero) = refl
config_event_names (pos (suc zero)) = refl
config_event_names (pos (suc (suc zero))) = refl
config_event_names (pos (suc (suc (suc n)))) = ground arith
config_event_names (negsuc n) = refl

-- In each enumeration, a number's name in JSON is read as the number itself is.
pub names-agree :
    (n : ℤ)
    → (secret_event_from_json (text (secret_event_to_json n)) ≡ secret_event_from_json (number n))
      × (bundle_event_from_json (text (bundle_event_to_json n)) ≡ bundle_event_from_json (number n))
      × (message_type_from_json (text (message_type_to_json n)) ≡ message_type_from_json (number n))
      × (config_event_from_json (text (config_event_to_json n)) ≡ config_event_from_json (number n))
names-agree n =
    (secret_event_names n, bundle_event_names n, message_type_names n, config_event_names n)
