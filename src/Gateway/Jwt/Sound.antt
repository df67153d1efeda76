-- ===== src/Gateway/Jwt/Sound.antt =====
-- What services/gateway/src/jwt.ts has checked of a token that it accepts, and that it accepts every
-- token of which this holds.
use finlytic_ecosystem.Prelude.{
  ℕ, ◌/◌, ◌<◌, ◌≡◌, ◌↔◌, refl, ap, ◌∙◌, sym, true, Option, none, some, List, [], ◌∷◌, ◌++◌, arith,
}
use finlytic_ecosystem.Prelude.Text.{Text, codes, text_eq_iff, text_eq_refl}
use finlytic_ecosystem.Prelude.Split.{split, parts_list}
use finlytic_ecosystem.Gateway.Config.{GatewayConfig}
use finlytic_ecosystem.Gateway.Jwt.{
  Json, str, num, other, Decoded, malformed, null_value, properties, Crypto, AuthenticatedUser,
  accepted, is_text, is_after, user_of, check_claims, check_header, verify_segments,
  verify_access_token,
}

module _ (crypto : Crypto) (config : GatewayConfig) (now_ms : ℕ) where
  -- Three segments; the header names RS256; the signature is over the segments as they came; the
  -- claims are unexpired, for this audience, from this issuer, and name the user.
  pub record IsVerified (token : Text) (user : AuthenticatedUser) : Type 0 where
    pub header : Text
    pub payload : Text
    pub signature : Text
    pub segments : parts_list (split b'.' token) ≡ header ∷ payload ∷ signature ∷ []
    pub field : Text → Option Json
    pub decoded_header : crypto.decode_segment header ≡ properties field
    pub algorithm : field (codes "alg") ≡ some (str (codes "RS256"))
    pub signed : crypto.verify_rs256 config.public_key (header ++ (b'.' ∷ payload)) signature ≡ true
    pub claim : Text → Option Json
    pub decoded_payload : crypto.decode_segment payload ≡ properties claim
    pub expiry : ℕ
    pub expires : claim (codes "exp") ≡ some (num expiry)
    pub unexpired : now_ms / 1000 < expiry
    pub issuer : claim (codes "iss") ≡ some (str config.issuer)
    pub audience : claim (codes "aud") ≡ some (str config.audience)
    pub subject : claim (codes "sub") ≡ some (str user.id)
    pub role : claim (codes "role") ≡ some (str user.role)

  is_text_sound : (v : Option Json) (t : Text) → is_text v t ≡ true → v ≡ some (str t)
  is_text_sound none t h = cc
  is_text_sound (some (str s)) t h = ap (λ x. some (str x)) ((text_eq_iff s t).0 h)
  is_text_sound (some (num n)) t h = cc
  is_text_sound (some other) t h = cc

  is_after_sound :
      (v : Option Json) (now : ℕ) → is_after v now ≡ true → (n : ℕ) × (v ≡ some (num n)) × (now < n)
  is_after_sound none now h = absurd (cc)
  is_after_sound (some (str s)) now h = absurd (cc)
  is_after_sound (some (num n)) now h = (n, refl, ground arith)
  is_after_sound (some other) now h = absurd (cc)

  user_of_sound :
      (s r : Option Json) (user : AuthenticatedUser)
      → user_of s r ≡ accepted user
      → (s ≡ some (str user.id)) × (r ≡ some (str user.role))
  user_of_sound (some (str a)) (some (str b)) user h = (ground arith, ground arith)
  user_of_sound none r user h = absurd (cc)
  user_of_sound (some (num a)) r user h = absurd (cc)
  user_of_sound (some other) r user h = absurd (cc)
  user_of_sound (some (str a)) none user h = absurd (cc)
  user_of_sound (some (str a)) (some (num b)) user h = absurd (cc)
  user_of_sound (some (str a)) (some other) user h = absurd (cc)

  accepted_claims :
      (claim : Text → Option Json) (user : AuthenticatedUser)
      → check_claims crypto config now_ms (properties claim) ≡ accepted user
      → (is_after (claim (codes "exp")) (now_ms / 1000) ≡ true)
        × (is_text (claim (codes "iss")) config.issuer ≡ true)
        × (is_text (claim (codes "aud")) config.audience ≡ true)
        × (user_of (claim (codes "sub")) (claim (codes "role")) ≡ accepted user)
  unfolding check_claims
  accepted_claims claim user h = ground arith

  accepted_header :
      (header payload signature : Text) (field : Text → Option Json) (user : AuthenticatedUser)
      → check_header crypto config now_ms header payload signature (properties field)
        ≡ accepted user
      → (is_text (field (codes "alg")) (codes "RS256") ≡ true)
        × (crypto.verify_rs256 config.public_key (header ++ (b'.' ∷ payload)) signature ≡ true)
        × (check_claims crypto config now_ms (crypto.decode_segment payload) ≡ accepted user)
  unfolding check_header
  accepted_header header payload signature field user h = ground arith

  -- The decoded parts of an accepted token are objects.
  object_of_header :
      (header payload signature : Text) (d : Decoded) (user : AuthenticatedUser)
      → check_header crypto config now_ms header payload signature d ≡ accepted user
      → (field : Text → Option Json) × (d ≡ properties field)
  unfolding check_header
  object_of_header header payload signature malformed user h = absurd (cc)
  object_of_header header payload signature null_value user h = absurd (cc)
  object_of_header header payload signature (properties field) user h = (field, refl)

  object_of_claims :
      (d : Decoded) (user : AuthenticatedUser)
      → check_claims crypto config now_ms d ≡ accepted user
      → (claim : Text → Option Json) × (d ≡ properties claim)
  unfolding check_claims
  object_of_claims malformed user h = absurd (cc)
  object_of_claims null_value user h = absurd (cc)
  object_of_claims (properties claim) user h = (claim, refl)

  segments-IsVerified :
      (token : Text) (parts : List Text) (user : AuthenticatedUser)
      → parts_list (split b'.' token) ≡ parts
      → verify_segments crypto config now_ms parts ≡ accepted user
      → IsVerified token user
  unfolding verify_segments
  segments-IsVerified token (header ∷ payload ∷ signature ∷ []) user e h =
      let (field, eh) =
        object_of_header header payload signature (crypto.decode_segment header) user h in
      let (alg, signed, hc) =
        accepted_header header payload signature field user
          (ap (check_header crypto config now_ms header payload signature) (sym eh) ∙ h) in
      let (claim, ec) = object_of_claims (crypto.decode_segment payload) user hc in
      let (exp, iss, aud, who) =
        accepted_claims claim user (ap (check_claims crypto config now_ms) (sym ec) ∙ hc) in
      let (n, en, late) = is_after_sound (claim (codes "exp")) (now_ms / 1000) exp in
      let (sub, role) = user_of_sound (claim (codes "sub")) (claim (codes "role")) user who in
      record {
        header = header;
        payload = payload;
        signature = signature;
        segments = e;
        field = field;
        decoded_header = eh;
        algorithm = is_text_sound _ _ alg;
        signed = signed;
        claim = claim;
        decoded_payload = ec;
        expiry = n;
        expires = en;
        unexpired = late;
        issuer = is_text_sound _ _ iss;
        audience = is_text_sound _ _ aud;
        subject = sub;
        role = role;
      }
  segments-IsVerified token [] user e h = absurd (cc)
  segments-IsVerified token (a ∷ []) user e h = absurd (cc)
  segments-IsVerified token (a ∷ b ∷ []) user e h = absurd (cc)
  segments-IsVerified token (a ∷ b ∷ c ∷ d ∷ r) user e h = absurd (cc)

  verified_accepted :
      (token : Text) (user : AuthenticatedUser)
      → IsVerified token user
      → verify_access_token crypto config now_ms token ≡ accepted user
  unfolding verify_access_token verify_segments check_header check_claims
  verified_accepted token user v =
      rw
        (
          v.segments,
          v.decoded_header,
          v.algorithm,
          text_eq_refl (codes "RS256"),
          v.signed,
          v.decoded_payload,
          v.expires,
          v.issuer,
          v.audience,
          text_eq_refl config.issuer,
          text_eq_refl config.audience,
          v.subject,
          v.role,
        )
        (ground (arith, v.unexpired))

-- A token is accepted for a user exactly when it has three segments, an RS256 header, a valid
-- signature over its own first two segments, an expiry after the current second, the configured
-- issuer and audience, and the user's id and role.
pub verify_access_token_iff :
    (crypto : Crypto) (config : GatewayConfig) (now_ms : ℕ) (token : Text)
    (user : AuthenticatedUser)
    → (verify_access_token crypto config now_ms token ≡ accepted user)
      ↔ IsVerified crypto config now_ms token user
unfolding verify_access_token
verify_access_token_iff crypto config now_ms token user = (
  segments-IsVerified crypto config now_ms token (parts_list (split b'.' token)) user refl,
  verified_accepted crypto config now_ms token user,
)
