-- ===== src/Mail/Encryption.antt =====
-- services/email-ingestion/src/crypto/encryption.service.ts: the envelope of a provider token.
-- AES-256-GCM, UTF-8 and base64url are parameters; bytes are lists of numbers.
use finlytic_ecosystem.Prelude.{
  ℕ, ◌≡◌, ◌≢◌, refl, Bool, true, false, not, ◌&&◌, ◌||◌, Option, none, some, List, [], ◌∷◌, ◌++◌,
  if◌then◌else◌, arith, inl, inr, ◌⊎◌,
}
use finlytic_ecosystem.Prelude.Text.{Text, codes, text_eq, text_eq_refl}
use finlytic_ecosystem.Prelude.Split.{split, join, Lacks, split-append, split-Lacks, parts_list}
use finlytic_ecosystem.Prelude.Effects.{Result, ok, err}

abbrev pub Bytes : Type 0
Bytes = List ℕ

pub data CipherPurpose : Type 0 where
  access refresh probe : CipherPurpose

abbrev pub aad_of : CipherPurpose → Text
aad_of access = codes "access"
aad_of refresh = codes "refresh"
aad_of probe = codes "probe"

pub record Sealed : Type 0 where
  pub cipher_text : Bytes
  pub auth_tag : Bytes

pub record Cipher : Type 0 where
  -- AES-256-GCM under the key: the nonce, the additional data (`none` where none is set), the text.
  pub seal : Bytes → Option Text → Bytes → Sealed
  -- `none` where `final` throws: the tag does not fit.
  pub open_sealed : Bytes → Option Text → Sealed → Option Bytes
  pub utf8 : Text → Bytes
  pub from_utf8 : Bytes → Text
  pub base64url : Bytes → Text
  pub from_base64url : Text → Bytes

pub data CipherError : Type 0 where
  malformed_envelope unsupported_version not_authentic : CipherError

abbrev pub is_empty : Text → Bool
is_empty [] = true
is_empty (_ ∷ _) = false

module _ (cipher : Cipher) where
  open cipher use {seal, open_sealed, utf8, from_utf8, base64url, from_base64url}

  unfoldable pub encrypt : Bytes → Text → CipherPurpose → Text
  encrypt nonce plain_text purpose =
      let sealed = seal nonce (some (aad_of purpose)) (utf8 plain_text) in
      join b'.' (
        codes "v2"
        ∷ base64url nonce
        ∷ base64url sealed.auth_tag
        ∷ base64url sealed.cipher_text
        ∷ [])

  abbrev text_of : Option Bytes → Result CipherError Text
  text_of none = err not_authentic
  text_of (some bytes) = ok (from_utf8 bytes)

  -- The additional data that the version calls for.
  abbrev aad_for : Text → CipherPurpose → Option Text
  aad_for version purpose = if text_eq version (codes "v2") then some (aad_of purpose) else none

  unfoldable pub decrypt_parts : Text → Text → Text → Text → CipherPurpose → Result CipherError Text
  decrypt_parts version nonce_part tag_part cipher_text_part purpose =
      if is_empty nonce_part || is_empty tag_part || is_empty cipher_text_part
      then err malformed_envelope
      else if not (text_eq version (codes "v1")) && not (text_eq version (codes "v2"))
      then err unsupported_version
      else text_of (
          open_sealed (from_base64url nonce_part) (aad_for version purpose) (record {
            cipher_text = from_base64url cipher_text_part;
            auth_tag = from_base64url tag_part;
          }))

  -- A part that is absent is undefined, and parts beyond the fourth are ignored.
  unfoldable pub decrypt_list : List Text → CipherPurpose → Result CipherError Text
  decrypt_list (version ∷ nonce_part ∷ tag_part ∷ cipher_text_part ∷ others) purpose =
      decrypt_parts version nonce_part tag_part cipher_text_part purpose
  decrypt_list _ purpose = err malformed_envelope

  unfoldable pub decrypt : Text → CipherPurpose → Result CipherError Text
  decrypt envelope purpose = decrypt_list (parts_list (split b'.' envelope)) purpose

-- What node:crypto and Buffer document: GCM opens what it sealed under the same additional data and
-- nothing under other additional data; it keeps lengths and its tag and nonce are not empty;
-- base64url has no "." and is empty for no bytes only; both encodings are read back.
pub record IsFaithful (cipher : Cipher) : Type 0 where
  pub opens :
      (nonce : Bytes) (aad : Option Text) (b : Bytes)
      → cipher.open_sealed nonce aad (cipher.seal nonce aad b) ≡ some b
  pub binds :
      (nonce : Bytes) (a b : Option Text) (t : Bytes)
      → a ≢ b
      → cipher.open_sealed nonce b (cipher.seal nonce a t) ≡ none
  pub tag_some :
      (nonce : Bytes) (aad : Option Text) (b : Bytes) → (cipher.seal nonce aad b).auth_tag ≢ []
  pub text_some :
      (nonce : Bytes) (aad : Option Text) (b : Bytes)
      → b ≢ []
      → (cipher.seal nonce aad b).cipher_text ≢ []
  pub utf8_some : (s : Text) → s ≢ [] → cipher.utf8 s ≢ []
  pub utf8_back : (s : Text) → cipher.from_utf8 (cipher.utf8 s) ≡ s
  pub base64url_back : (b : Bytes) → cipher.from_base64url (cipher.base64url b) ≡ b
  pub base64url_some : (b : Bytes) → b ≢ [] → is_empty (cipher.base64url b) ≡ false
  pub base64url_no_dot : (b : Bytes) → Lacks b'.' (cipher.base64url b)

abbrev pub purpose_eq : CipherPurpose → CipherPurpose → Bool
purpose_eq access access = true
purpose_eq refresh refresh = true
purpose_eq probe probe = true
purpose_eq _ _ = false

module _ (cipher : Cipher) (f : IsFaithful cipher) where
  aad_cases :
      (p q : CipherPurpose)
      → ((purpose_eq p q ≡ true) × (p ≡ q))
        ⊎ ((purpose_eq p q ≡ false) × (text_eq (aad_of p) (aad_of q) ≡ false))
  unfolding text_eq
  aad_cases access access = inl (refl, refl)
  aad_cases access refresh = inr (refl, refl)
  aad_cases access probe = inr (refl, refl)
  aad_cases refresh access = inr (refl, refl)
  aad_cases refresh refresh = inl (refl, refl)
  aad_cases refresh probe = inr (refl, refl)
  aad_cases probe access = inr (refl, refl)
  aad_cases probe refresh = inr (refl, refl)
  aad_cases probe probe = inl (refl, refl)

  differ :
      (p q : CipherPurpose)
      → text_eq (aad_of p) (aad_of q) ≡ false
      → some (aad_of p) ≢ some (aad_of q)
  differ p q h e = absurd (cc (h, e, text_eq_refl (aad_of q)))

  opened :
      (nonce : Bytes) (t : Text) (p q : CipherPurpose)
      → text_of cipher (
          cipher.open_sealed nonce
            (some (aad_of q))
            (cipher.seal nonce (some (aad_of p)) (cipher.utf8 t)))
        ≡ (if purpose_eq p q then ok t else err not_authentic)
  opened nonce t p q = elim (aad_cases p q) [
    | inl (same, e) ↦
        rw (e, f.opens nonce (some (aad_of q)) (cipher.utf8 t), f.utf8_back t)
          (ground (arith, same, e))
    | inr (other, h) ↦
        rw (f.binds nonce (some (aad_of p)) (some (aad_of q)) (cipher.utf8 t) (differ p q h), other)
          refl
  ]

  envelope_parts :
      (nonce tag text : Text)
      → Lacks b'.' nonce
      → Lacks b'.' tag
      → Lacks b'.' text
      → parts_list (split b'.' (join b'.' (codes "v2" ∷ nonce ∷ tag ∷ text ∷ [])))
        ≡ codes "v2" ∷ nonce ∷ tag ∷ text ∷ []
  unfolding join
  envelope_parts nonce tag text a b c =
      rw
        (
          split-append b'.' (codes "v2") (nonce ++ (b'.' ∷ (tag ++ (b'.' ∷ text)))) (omega arith),
          split-append b'.' nonce (tag ++ (b'.' ∷ text)) a,
          split-append b'.' tag text b,
          split-Lacks b'.' text c,
        )
        refl

-- A token that is not empty is decrypted from its envelope for the purpose it was encrypted for,
-- and for no other purpose, where the nonce is not empty and the cipher is faithful.
pub decrypt-encrypt :
    (cipher : Cipher) (nonce : Bytes) (t : Text) (p q : CipherPurpose)
    → IsFaithful cipher
    → nonce ≢ []
    → t ≢ []
    → decrypt cipher (encrypt cipher nonce t p) q
      ≡ (if purpose_eq p q then ok t else err not_authentic)
unfolding decrypt encrypt decrypt_list decrypt_parts text_eq
decrypt-encrypt cipher nonce t p q f n s =
    let sealed = cipher.seal nonce (some (aad_of p)) (cipher.utf8 t) in
    rw
      (
        envelope_parts cipher f (cipher.base64url nonce) (cipher.base64url sealed.auth_tag)
            (cipher.base64url sealed.cipher_text) (f.base64url_no_dot nonce)
            (f.base64url_no_dot sealed.auth_tag) (f.base64url_no_dot sealed.cipher_text),
        f.base64url_some nonce n,
        f.base64url_some sealed.auth_tag (f.tag_some nonce (some (aad_of p)) (cipher.utf8 t)),
        f.base64url_some sealed.cipher_text
            (f.text_some nonce (some (aad_of p)) (cipher.utf8 t) (f.utf8_some t s)),
        f.base64url_back nonce,
        f.base64url_back sealed.auth_tag,
        f.base64url_back sealed.cipher_text,
      )
      (opened cipher f nonce t p q)
