-- ===== src/SopsEncrypt/Tests.antt =====
-- An encrypted document over a library of simple functions.
use signet_clients.Prelude.{ℕ, ◌%◌, ◌≡◌, refl, Option, none, some, List, [], ◌∷◌, map}
use signet_clients.Runtime.{Text, codes, resolved}
use signet_clients.SopsEncrypt.{
  SopsDocument, SopsLibrary, document_for, without_fraction, is_fraction,
}

abbrev low_bytes : Text → List ℕ
low_bytes t = map (λ c. c % 256) t

abbrev example_library : SopsLibrary
example_library = record {
  random_bytes = λ i. 1 ∷ 2 ∷ [];
  sha512_hex = λ bs. codes "c0ffee";
  seal = λ key nonce aad plaintext. (plaintext, []);
  add_recipient = λ recipient. none;
  age_encrypt = λ recipient key. resolved key;
  armor = λ bs. bs;
  utf8_encode = low_bytes;
  iso_now = codes "2026-01-02T03:04:05.678Z";
  print_document = λ doc. doc.value;
}

abbrev unseal : List ℕ → List ℕ → List ℕ → List ℕ → List ℕ → Option (List ℕ)
unseal key nonce aad ciphertext tag = some ciphertext

whole_seconds_kept :
    without_fraction (codes "2026-01-02T03:04:05.678Z") ≡ codes "2026-01-02T03:04:05Z"
unfolding without_fraction is_fraction
whole_seconds_kept = refl

abbrev doc : SopsDocument
doc = document_for example_library (codes "age1") (low_bytes (codes "secret")) (1 ∷ 2 ∷ [])
