-- ===== src/SopsEncrypt/Leaves.antt =====
-- Reading what sops reads in a document: the text of an encrypted leaf and the time.
use signet_clients.Prelude.{
  ℕ, ◌≤◌, ◌≡◌, ◌≢◌, refl, ap, Option, none, some, List, [], ◌∷◌, ◌++◌, take, drop, length,
  take-append_length, drop-append_length, subst, All, if◌then◌else◌, arith,
}
use signet_clients.Runtime.{Text, codes}
use signet_clients.Strings.{before_first, comma, same_text, starts_with}
use signet_clients.Strings.Equality.{before_first-append, starts_with-append}
use signet_clients.Pem.{to_base64}
use signet_clients.Pem.Base64.{from_base64, from_base64-to_base64, IsByte, to_base64-NoComma}
use signet_clients.SopsEncrypt.{enc_text, without_fraction, is_fraction}

-- The text behind a prefix that it must have.
abbrev pub behind_prefix : Text → Text → Option Text
behind_prefix prefix s = if starts_with prefix s then some (drop (length prefix) s) else none

infixl 5 ◌>>=◌
abbrev ◌>>=◌ : {A B : Type 0} → Option A → (A → Option B) → Option B
none >>= f = none
some a >>= f = f a

-- A field, which no comma is in, and the text behind what must follow it.
pub next_field : Text → Text → Option (Text × Text)
next_field after s =
    let value = before_first comma s in
    behind_prefix after (drop (length value) s) >>= λ rest. some (value, rest)

-- A leaf after `^ENC\[AES256_GCM,data:(.+),iv:(.+),tag:(.+),type:(.+)\]`, with the type of a string:
-- its ciphertext, nonce and tag. An empty field is read too.
abbrev pub read_leaf : Text → Option (List ℕ × List ℕ × List ℕ)
read_leaf t = do
  s ← behind_prefix (codes "ENC[AES256_GCM,data:") t
  (ciphertext, u) ← next_field (codes ",iv:") s
  (nonce, v) ← next_field (codes ",tag:") u
  (tag, w) ← next_field (codes ",type:") v
  if same_text w (codes "str]")
      then some (from_base64 ciphertext, from_base64 nonce, from_base64 tag)
      else none

-- A time that is parsed and printed again in the layout of RFC 3339, which has whole seconds.
abbrev pub reprinted : Text → Text
reprinted t = take 19 t ++ codes "Z"

next_field-append :
    (after s : Text) (bytes : List ℕ)
    → All IsByte bytes
    → next_field (comma ∷ after) (to_base64 bytes ++ comma ∷ (after ++ s))
      ≡ some (to_base64 bytes, s)
unfolding next_field
next_field-append after s bytes h =
    rw
      (
        before_first-append comma (to_base64 bytes) (after ++ s) (to_base64-NoComma bytes h),
        drop-append_length (to_base64 bytes) (comma ∷ (after ++ s)),
        starts_with-append (comma ∷ after) s,
        drop-append_length after s,
      )
      refl

-- What the code writes as a leaf is read as its parts.
pub read_leaf-enc_text :
    (ciphertext nonce tag : List ℕ)
    → All IsByte ciphertext
    → All IsByte nonce
    → All IsByte tag
    → read_leaf (enc_text ciphertext nonce tag) ≡ some (ciphertext, nonce, tag)
unfolding enc_text starts_with same_text
read_leaf-enc_text ciphertext nonce tag hc hn ht =
    let ending = to_base64 tag ++ codes ",type:str]" in
    rw
      (
        next_field-append (codes "iv:") (to_base64 nonce ++ (codes ",tag:" ++ ending)) ciphertext
            hc,
        next_field-append (codes "tag:") ending nonce hn,
        next_field-append (codes "type:") (codes "str]") tag ht,
        from_base64-to_base64 ciphertext hc,
        from_base64-to_base64 nonce hn,
        from_base64-to_base64 tag ht,
      )
      refl

-- What toISOString gives for a year of four digits: 19 code units with no full stop, and then the
-- milliseconds.
abbrev pub IsIsoTime : Text → Type 0
IsIsoTime t =
    (seconds : Text) × (a : ℕ) × (b : ℕ) × (c : ℕ) × (length seconds ≡ 19)
    × All (λ d. d ≢ 46) seconds
    × All (λ d. (48 ≤ d) × (d ≤ 57)) (a ∷ b ∷ c ∷ [])
    × (t ≡ seconds ++ 46 ∷ a ∷ b ∷ c ∷ 90 ∷ [])

without_fraction-seconds :
    (seconds : Text) (a b c : ℕ)
    → All (λ d. d ≢ 46) seconds
    → All (λ d. (48 ≤ d) × (d ≤ 57)) (a ∷ b ∷ c ∷ [])
    → without_fraction (seconds ++ 46 ∷ a ∷ b ∷ c ∷ 90 ∷ []) ≡ seconds ++ codes "Z"
unfolding without_fraction is_fraction
without_fraction-seconds [] a b c h digits = ground arith
without_fraction-seconds (d ∷ seconds) a b c h digits =
    ground (arith, without_fraction-seconds seconds a b c)

-- The time that the code writes is printed again as it is.
pub reprinted-without_fraction :
    (t : Text) → IsIsoTime t → reprinted (without_fraction t) ≡ without_fraction t
reprinted-without_fraction t (seconds, a, b, c, long, dots, digits, same) =
    rw (same, without_fraction-seconds seconds a b c dots digits)
      (ap (λ s. s ++ codes "Z")
        (subst (λ n. take n (seconds ++ codes "Z") ≡ seconds) long
          (take-append_length seconds (codes "Z"))))
