-- ===== src/Web/Download.antt =====
-- apps/web/src/messages/download.ts: the original of a message is saved as a file. Reading a body to its
-- end is a parameter.
use finlytic_ecosystem.Prelude.{
  ℕ, ap, ◌≡◌, not, true, List, [], ◌++◌, none, if◌then◌else◌, ◌==◌, Bool-cases, inl, inr, arith,
}
use finlytic_ecosystem.Prelude.Text.{Text, codes}
use finlytic_ecosystem.Prelude.Effects.{Result, ok, err, Eff, ◌>>=◌, bind-eq-ok}
use finlytic_ecosystem.Web.Client.{
  ApiRequest, ApiResponse, ApiError, status_error, Client, Network, is_ok, api_fetch,
}

pub record SavedFile : Type 0 where
  pub download : Text
  pub blob : List ℕ

abbrev raw_request : Text → Text → ApiRequest
raw_request account_id message_id = record {
  input = codes "/api/accounts/" ++ account_id ++ codes "/messages/" ++ message_id ++ codes "/raw";
  method = codes "GET";
  authorization = none;
  body = [];
}

abbrev saved : Text → Result ApiError (List ℕ) → Result ApiError SavedFile
saved message_id (err e) = err e
saved message_id (ok blob) =
    ok (record { download = codes "message-" ++ message_id ++ codes ".eml"; blob = blob })

module _ (n : Network) (read_blob : ApiResponse → Result ApiError (List ℕ)) where
  abbrev save_if_ok : Text → ApiResponse → Eff Client ApiError SavedFile
  save_if_ok message_id response client =
      if not (is_ok response)
      then (
        err (
            status_error (
              if response.status == 404
              then codes "The original message is no longer stored"
              else codes "Could not download the original message")),
        client,
      )
      else (saved message_id (read_blob response), client)

  unfoldable pub download_message : Text → Text → Eff Client ApiError SavedFile
  download_message account_id message_id =
      api_fetch n (raw_request account_id message_id) >>= save_if_ok message_id

  saved-blob :
      (message_id : Text) (r : Result ApiError (List ℕ)) (file : SavedFile)
      → saved message_id r ≡ ok file
      → r ≡ ok file.blob
  saved-blob message_id (err e) file h = absurd (cc)
  saved-blob message_id (ok blob) file h = ground (arith, h)

  -- What is saved is the whole body of a successful answer, never that of an error.
  pub download_message-saved :
      (account_id message_id : Text) (client after : Client) (file : SavedFile)
      → download_message account_id message_id client ≡ (ok file, after)
      → (response : ApiResponse) × (middle : Client) × (api_fetch n
            (raw_request account_id message_id)
            client
          ≡ (ok response, middle))
        × (is_ok response ≡ true)
        × (read_blob response ≡ ok file.blob)
  unfolding download_message
  download_message-saved account_id message_id client after file done =
      let (response, middle, answered, rest) =
        bind-eq-ok (api_fetch n (raw_request account_id message_id)) (save_if_ok message_id) done in
      elim (Bool-cases (is_ok response)) [
        | inl good ↦ (
          response,
          middle,
          answered,
          good,
          saved-blob message_id (read_blob response) file
              (ap (λ (x : Result ApiError SavedFile × Client). x.0) (rw good at rest)),
        )
        | inr bad ↦ absurd (cc (rw bad at rest))
      ]
