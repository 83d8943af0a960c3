-- ===== src/SopsEncrypt/Reading.antt =====
-- Reading an encrypted document back, as sops does with the data key.
use signet_clients.Prelude.{ℕ, ◌≡◌, Option, none, some, List, All, if◌then◌else◌}
use signet_clients.Runtime.{Text, codes}
use signet_clients.Strings.{same_text}
use signet_clients.Pem.Base64.{IsByte}
use signet_clients.SopsEncrypt.Leaves.{read_leaf, reprinted}
use signet_clients.SopsEncrypt.{SopsDocument, SopsLibrary, to_upper}

-- An opened MAC is right if it is the hash, in upper case, of the opened value.
abbrev pub check_mac : SopsLibrary → Option (List ℕ) → Option (List ℕ) → Option (List ℕ)
check_mac lib none mac = none
check_mac lib (some plaintext) none = none
check_mac lib (some plaintext) (some mac) =
    if same_text mac (lib.utf8_encode (to_upper (lib.sha512_hex plaintext)))
    then some plaintext
    else none

module _ (lib : SopsLibrary)
    (unseal : List ℕ → List ℕ → List ℕ → List ℕ → List ℕ → Option (List ℕ)) where
  open_leaf : List ℕ → List ℕ → Option (List ℕ × List ℕ × List ℕ) → Option (List ℕ)
  open_leaf key aad none = none
  open_leaf key aad (some (ciphertext, nonce, tag)) = unseal key nonce aad ciphertext tag

  -- What sops makes of a document, given its data key: the value is opened with its path as the
  -- additional data, the MAC with the time, which is printed again, and the MAC is compared.
  pub decrypt_document : List ℕ → SopsDocument → Option (List ℕ)
  unfolding open_leaf
  decrypt_document key doc =
      check_mac lib (open_leaf key (lib.utf8_encode (codes "value:")) (read_leaf doc.value))
        (open_leaf key (lib.utf8_encode (reprinted doc.lastmodified)) (read_leaf doc.mac))

  -- On bytes, the cipher gives bytes, and opening undoes sealing.
  abbrev pub Unseals : Type 0
  Unseals =
      (key nonce aad plaintext : List ℕ)
      → All IsByte plaintext
      → (unseal key nonce aad (lib.seal key nonce aad plaintext).0
            (lib.seal key nonce aad plaintext).1
          ≡ some plaintext)
        × All IsByte (lib.seal key nonce aad plaintext).0
        × All IsByte (lib.seal key nonce aad plaintext).1

  abbrev pub RandomIsByte : Type 0
  RandomIsByte = (i : ℕ) → All IsByte (lib.random_bytes i)

  abbrev pub Utf8IsByte : Type 0
  Utf8IsByte = (t : Text) → All IsByte (lib.utf8_encode t)
