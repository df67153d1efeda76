-- ===== src/Guard/Header.antt =====
-- The Authorization header from apps/web/src/api/client.ts through services/gateway/src/server.ts to
-- packages/auth-lib/src/jwt-auth.guard.ts.
use finlytic_ecosystem.Prelude.{ℕ, ◌≡◌, refl, ◌∙◌, some, [], ◌∷◌, ◌++◌, arith}
use finlytic_ecosystem.Prelude.Text.{Text, codes, text_eq, starts_with}
use finlytic_ecosystem.Prelude.Split.{
  Lacks, split, split-append, split-Lacks, IsBlankFree, is_space, trim_lem,
}
use finlytic_ecosystem.Gateway.Server.{bearer_token}
use finlytic_ecosystem.Web.Client.{ApiRequest, authorized}
use finlytic_ecosystem.Guard.{Verifier, extract_bearer_token}

blank_free-Lacks : (s : Text) → IsBlankFree s → Lacks 32 s
unfolding is_space
blank_free-Lacks [] h = tt
blank_free-Lacks (a ∷ s) (h, hs) = (λ e. ground (arith, h, e), blank_free-Lacks s hs)

bearer-Lacks : Lacks 32 (codes "Bearer")
bearer-Lacks = omega arith

split_header :
    (s : Text) → IsBlankFree s → split b' ' (codes "Bearer " ++ s) ≡ (codes "Bearer", s ∷ [])
split_header s h =
    split-append b' ' (codes "Bearer") s bearer-Lacks
    ∙ rw (split-Lacks b' ' s (blank_free-Lacks s h)) refl

-- The gateway and the service behind it read from the header of the browser the same token, the one that
-- the client holds; the token is not empty and has no white space, and
-- "Bearer" in lower case is "bearer".
pub authorized-read :
    (v : Verifier) (c : ℕ) (s : Text) (init : ApiRequest)
    → v.to_lower_case (codes "Bearer") ≡ codes "bearer"
    → IsBlankFree (c ∷ s)
    → (bearer_token (authorized (some (c ∷ s)) init).authorization ≡ some (c ∷ s))
      × (extract_bearer_token v (authorized (some (c ∷ s)) init).authorization ≡ some (c ∷ s))
unfolding bearer_token extract_bearer_token starts_with text_eq
authorized-read v c s init lower plain =
    (rw (trim_lem (c ∷ s) plain) refl, rw (split_header (c ∷ s) plain, lower) refl)
