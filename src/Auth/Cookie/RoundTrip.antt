-- ===== src/Auth/Cookie/RoundTrip.antt =====
-- A cookie header as a browser writes it (RFC 6265, section 5.4), read back by
-- services/user-management/src/auth/refresh-cookie.ts.
use finlytic_ecosystem.Prelude.{
  ◌≡◌, refl, ap, ◌∙◌, Option, none, some, List, [], ◌∷◌, ◌++◌, arith, if◌then◌else◌, All,
  Bool-cases, inl, inr,
}
use finlytic_ecosystem.Prelude.Text.{Text, text_eq}
use finlytic_ecosystem.Prelude.Split.{
  split, parts_list, trim, Lacks, IsBlankFree, split-append, split-Lacks, join-split, trim_lem,
  trim-space,
}
use finlytic_ecosystem.Auth.Cookie.{refresh_cookie, or_undefined, read_parts, read_refresh_cookie}

pub record Pair : Type 0 where
  pub name : Text
  pub value : Text

abbrev pub pair_text : Pair → Text
pair_text p = p.name ++ (b'=' ∷ p.value)

-- "n1=v1; n2=v2"
unfoldable pub cookie_header : List Pair → Text
cookie_header [] = []
cookie_header (p ∷ []) = pair_text p
cookie_header (p ∷ q ∷ ps) = pair_text p ++ (b';' ∷ b' ' ∷ cookie_header (q ∷ ps))

-- A name has no "=", and neither part has a ";" or white space.
pub record IsPlain (p : Pair) : Type 0 where
  pub name_no_equals : Lacks b'=' p.name
  pub no_semicolon : Lacks b';' (pair_text p)
  pub no_blank : IsBlankFree (pair_text p)

-- The first cookie of the name, `none` where its value is empty.
unfoldable pub first_of : List Pair → Option Text
first_of [] = none
first_of (p ∷ ps) = if text_eq p.name refresh_cookie then or_undefined p.value else first_of ps

read_part :
    (p : Pair) (part : Text) (parts : List Text)
    → IsPlain p
    → trim part ≡ pair_text p
    → read_parts (part ∷ parts)
      ≡ (if text_eq p.name refresh_cookie then or_undefined p.value else read_parts parts)
unfolding read_parts
read_part p part parts plain e =
    rw (e, split-append b'=' p.name p.value plain.name_no_equals, join-split b'=' p.value)
      (elim (Bool-cases (text_eq p.name refresh_cookie)) [
        | inl same ↦ rw same
        | inr other ↦ rw other
      ])

-- The parts behind the first begin with a space.
read_later :
    (p : Pair) (ps : List Pair)
    → All IsPlain (p ∷ ps)
    → read_parts (parts_list (split b';' (b' ' ∷ cookie_header (p ∷ ps)))) ≡ first_of (p ∷ ps)
unfolding cookie_header first_of
read_later p [] (plain, _) =
    rw (split-Lacks b';' (b' ' ∷ pair_text p) (omega arith, plain.no_semicolon)) (
      read_part p (b' ' ∷ pair_text p) [] plain (trim-space (pair_text p) plain.no_blank)
      ∙ unfold read_parts in refl)
read_later p (q ∷ qs) (plain, others) =
    rw
      (split-append b';' (b' ' ∷ pair_text p) (b' ' ∷ cookie_header (q ∷ qs))
        (omega arith, plain.no_semicolon))
      (read_part p (b' ' ∷ pair_text p) _ plain (trim-space (pair_text p) plain.no_blank)
        ∙ ap (λ r. if text_eq p.name refresh_cookie then or_undefined p.value else r)
            (read_later q qs others))

read_header :
    (ps : List Pair)
    → All IsPlain ps
    → read_parts (parts_list (split b';' (cookie_header ps))) ≡ first_of ps
unfolding cookie_header first_of
read_header [] _ = unfold read_parts split trim text_eq in refl
read_header (p ∷ []) (plain, _) = rw (split-Lacks b';' (pair_text p) plain.no_semicolon) (
    read_part p (pair_text p) [] plain (trim_lem (pair_text p) plain.no_blank)
    ∙ unfold read_parts in refl)
read_header (p ∷ q ∷ qs) (plain, others) =
    rw (split-append b';' (pair_text p) (b' ' ∷ cookie_header (q ∷ qs)) plain.no_semicolon) (
      read_part p (pair_text p) _ plain (trim_lem (pair_text p) plain.no_blank)
      ∙ ap (λ r. if text_eq p.name refresh_cookie then or_undefined p.value else r)
          (read_later q qs others))

read_refresh_cookie_lem :
    (header : Text)
    → read_refresh_cookie (some header) ≡ read_parts (parts_list (split b';' header))
unfolding read_refresh_cookie
read_refresh_cookie_lem [] = refl
read_refresh_cookie_lem (a ∷ s) = refl

-- From a header that a browser writes for plain cookies, the value of the first cookie named
-- "refresh_token" is read back, also where it has "=" in it; an empty value reads as absent.
pub read-cookie_header :
    (ps : List Pair) → All IsPlain ps → read_refresh_cookie (some (cookie_header ps)) ≡ first_of ps
read-cookie_header ps plain = read_refresh_cookie_lem (cookie_header ps) ∙ read_header ps plain
