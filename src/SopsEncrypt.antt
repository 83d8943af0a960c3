-- ===== src/SopsEncrypt.antt =====
-- typescript/src/sopsEncrypt.ts: encryptForSecret and gcmSealSopsEnc. The random bytes, the hash, the
-- cipher, age, the clock, the coding of texts as UTF-8 and the printing of YAML are not part of the
-- repository.
pub mod Leaves
pub mod Reading
pub mod Tests
use signet_clients.Prelude.{
  ℕ, ◌-◌, Bool, true, false, ◌&&◌, Option, none, some, List, [], ◌∷◌, ◌++◌, ◌==◌, leb,
  if◌then◌else◌,
}
use signet_clients.Runtime.{Text, codes, JsValue, error, new_error, Outcome, resolved, rejected}
use signet_clients.Errors.{err_message}
use signet_clients.Strings.{trim}
use signet_clients.Pem.{to_base64}

abbrev pub sops_version : Text
sops_version = codes "3.13.1"

-- The document, before it is printed; `lastmodified` is printed in double quotes.
pub record SopsDocument : Type 0 where
  pub value : Text
  pub recipient : Text
  pub enc : Text
  pub lastmodified : Text
  pub mac : Text
  pub version : Text

-- `random_bytes i` is what call number `i` of randomBytes(32) gives; `seal key nonce aad plaintext`
-- is the ciphertext and the tag; `add_recipient` gives what it throws, if it does.
pub record SopsLibrary : Type 0 where
  pub random_bytes : ℕ → List ℕ
  pub sha512_hex : List ℕ → Text
  pub seal : List ℕ → List ℕ → List ℕ → List ℕ → List ℕ × List ℕ
  pub add_recipient : Text → Option JsValue
  pub age_encrypt : Text → List ℕ → Outcome (List ℕ)
  pub armor : List ℕ → Text
  pub utf8_encode : Text → List ℕ
  pub iso_now : Text
  pub print_document : SopsDocument → Text

-- The argument `value`.
pub data Value : Type 0 where
  text : Text → Value
  bytes : List ℕ → Value

-- `toUpperCase`, on the digits of a hash.
pub to_upper : Text → Text
to_upper [] = []
to_upper (c ∷ s) = (if leb 97 c && leb c 122 then c - 32 else c) ∷ to_upper s

-- Digits, at least one if `some_digits` is false, and then `Z` and nothing more.
is_fraction : Bool → Text → Bool
is_fraction some_digits [] = false
is_fraction some_digits (c ∷ s) =
    let rest = is_fraction true s in
    if leb 48 c && leb c 57 then rest else some_digits && (c == 90) && ends s
  where
    ends : Text → Bool
    ends [] = true
    ends (d ∷ t) = false

-- `s.replace(/\.\d+Z$/, "Z")`.
pub without_fraction : Text → Text
unfolding is_fraction
without_fraction [] = []
without_fraction (c ∷ s) =
    let rest = without_fraction s in
    if (c == 46) && is_fraction false s then codes "Z" else c ∷ rest

-- The text of an encrypted leaf.
pub enc_text : List ℕ → List ℕ → List ℕ → Text
enc_text ciphertext nonce tag =
    codes "ENC[AES256_GCM,data:"
    ++ (to_base64 ciphertext
        ++ (codes ",iv:"
            ++ (to_base64 nonce ++ (codes ",tag:" ++ (to_base64 tag ++ codes ",type:str]")))))

module _ (lib : SopsLibrary) where
  open lib use {
    random_bytes, sha512_hex, seal, add_recipient, age_encrypt, armor, utf8_encode, iso_now,
    print_document,
  }

  -- `nonce` is what its call of randomBytes gives.
  pub gcm_seal_sops_enc : List ℕ → List ℕ → List ℕ → Text → Text
  unfolding enc_text
  gcm_seal_sops_enc nonce data_key plaintext aad =
      let sealed = seal data_key nonce (utf8_encode aad) plaintext in
      enc_text sealed.0 nonce sealed.1

  pub plaintext_of : Value → List ℕ
  plaintext_of (text t) = utf8_encode t
  plaintext_of (bytes bs) = bs

  -- The document for a recipient and its wrapped data key.
  pub document_for : Text → List ℕ → List ℕ → SopsDocument
  unfolding gcm_seal_sops_enc to_upper without_fraction
  document_for recipient plaintext wrapped_data_key = record {
    value = gcm_seal_sops_enc (random_bytes 1) (random_bytes 0) plaintext (codes "value:");
    recipient = recipient;
    enc = armor wrapped_data_key;
    lastmodified = without_fraction iso_now;
    mac =
        gcm_seal_sops_enc (random_bytes 2) (random_bytes 0)
          (utf8_encode (to_upper (sha512_hex plaintext))) (without_fraction iso_now);
    version = sops_version;
  }

  wrapped : Outcome (List ℕ) → Text → List ℕ → Outcome SopsDocument
  unfolding document_for
  wrapped (resolved key) recipient plaintext = resolved (document_for recipient plaintext key)
  wrapped (rejected e) recipient plaintext = rejected e

  added : Option JsValue → Text → List ℕ → Outcome SopsDocument
  unfolding wrapped
  added (some e) recipient plaintext = rejected (
      error
        (new_error (codes "signet: encryptForSecret: invalid age recipient: " ++ err_message e)))
  added none recipient plaintext =
      wrapped (age_encrypt recipient (random_bytes 0)) recipient plaintext

  encrypt_to : Text → List ℕ → Outcome SopsDocument
  unfolding added
  encrypt_to [] plaintext =
      rejected (error (new_error (codes "signet: encryptForSecret: publicKey must not be empty")))
  encrypt_to (c ∷ recipient) plaintext =
      added (add_recipient (c ∷ recipient)) (c ∷ recipient) plaintext

  -- The document that is printed.
  pub sops_document : Text → Value → Outcome SopsDocument
  unfolding encrypt_to plaintext_of
  sops_document public_key value = encrypt_to (trim public_key) (plaintext_of value)

  printed : Outcome SopsDocument → Outcome (List ℕ)
  printed (resolved doc) = resolved (utf8_encode (print_document doc))
  printed (rejected e) = rejected e

  pub encrypt_for_secret : Text → Value → Outcome (List ℕ)
  unfolding printed sops_document
  encrypt_for_secret public_key value = printed (sops_document public_key value)
