-- ===== src/Errors/Messages.antt =====
-- What the error helpers keep of a thrown value or of an abort reason.
use signet_clients.Prelude.{◌≡◌, refl, ◌++◌, Option, none, some}
use signet_clients.Runtime.{
  Text, codes, error, other, undefined, null, primitive, string, object, Signal, no_abort, live,
  aborted,
}
use signet_clients.Errors.{string_of, aborted_error}

-- The text that a reason adds to the message, if any.
abbrev pub reason_text : Signal → Option Text
reason_text no_abort = none
reason_text live = none
reason_text (aborted (error e)) = some e.message
reason_text (aborted (other undefined)) = none
reason_text (aborted (other null)) = none
reason_text (aborted (other (primitive t))) = some t
reason_text (aborted (other (string t))) = some t
reason_text (aborted (other (object code t))) = some t

abbrev pub message_with : Text → Option Text → Text
message_with context none = codes "signet: " ++ context ++ codes ": aborted"
message_with context (some t) =
    (codes "signet: " ++ context ++ codes ": aborted") ++ codes ": " ++ t

-- The message of an abort names the context and, for every reason but undefined and null, the
-- reason's own text; without a fired signal there is none to name.
pub aborted_error-message :
    (signal : Signal) (context : Text)
    → (aborted_error signal context).message ≡ message_with context (reason_text signal)
unfolding aborted_error string_of
aborted_error-message no_abort context = refl
aborted_error-message live context = refl
aborted_error-message (aborted (error e)) context = refl
aborted_error-message (aborted (other undefined)) context = refl
aborted_error-message (aborted (other null)) context = refl
aborted_error-message (aborted (other (primitive t))) context = refl
aborted_error-message (aborted (other (string t))) context = refl
aborted_error-message (aborted (other (object code t))) context = refl
