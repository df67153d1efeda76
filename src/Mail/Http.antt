-- ===== src/Mail/Http.antt =====
-- What the adapters of services/email-ingestion/src/mail/providers share: `fetch` and its answers.
use finlytic_ecosystem.Prelude.{ℕ, Bool, ◌&&◌, Option, List, leb, ltb}
use finlytic_ecosystem.Prelude.Text.{Text}
use finlytic_ecosystem.Prelude.Effects.{Result, ok, err}
use finlytic_ecosystem.Mail.Store.{Error, failure}

pub record HttpRequest : Type 0 where
  pub method : Text
  pub url : Text
  pub authorization : Option Text
  -- The fields of a form body.
  pub body : List (Text × Text)

pub record Response : Type 0 where
  pub status : ℕ
  pub text : Text

-- `response.ok`
abbrev pub is_ok : Response → Bool
is_ok r = leb 200 r.status && ltb r.status 300

-- `fetch` rejects with a reason, for instance where the URL is none.
abbrev pub Fetch : Type 0
Fetch = HttpRequest → Result Text Response

-- An await that nothing catches.
abbrev pub uncaught : {A : Type 0} → Result Text A → Result Error A
uncaught (ok a) = ok a
uncaught (err reason) = err (failure reason)

abbrev pub then_do : {A B : Type 0} → Result Error A → (A → Result Error B) → Result Error B
then_do (ok a) f = f a
then_do (err e) f = err e
