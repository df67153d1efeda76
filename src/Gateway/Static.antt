-- ===== src/Gateway/Static.antt =====
-- services/gateway/src/static.ts. decodeURIComponent, node:path and the file system are parameters; a
-- read that fails midway drops the connection and still counts as an answer.
use finlytic_ecosystem.Prelude.{
  ℕ, ◌≡◌, ◌⊎◌, Bool, true, not, ◌||◌, Option, none, some, List, [], ◌∷◌, ◌++◌, if◌then◌else◌,
  or_else, arith, inl, inr, Option-cases, Bool-cases,
}
use finlytic_ecosystem.Prelude.Text.{Text, codes, text_eq, starts_with}

pub record Files : Type 0 where
  -- `none` where it throws a URIError.
  pub decode_uri_component : Text → Option Text
  pub normalize : Text → Text
  pub join : Text → Text → Text
  pub resolve : Text → Text
  pub extname : Text → Text
  -- The size, where `stat` finds a regular file.
  pub file_size : Text → Option ℕ

pub record FileAnswer : Type 0 where
  pub file_path : Text
  pub content_type : Text
  pub content_length : ℕ
  pub cache_control : Text

abbrev mime_types : List (Text × Text)
mime_types =
    (codes ".html", codes "text/html; charset=utf-8")
    ∷ (codes ".js", codes "text/javascript; charset=utf-8")
    ∷ (codes ".css", codes "text/css; charset=utf-8")
    ∷ (codes ".json", codes "application/json; charset=utf-8")
    ∷ (codes ".svg", codes "image/svg+xml")
    ∷ (codes ".png", codes "image/png")
    ∷ (codes ".jpg", codes "image/jpeg")
    ∷ (codes ".webp", codes "image/webp")
    ∷ (codes ".ico", codes "image/x-icon")
    ∷ (codes ".woff2", codes "font/woff2")
    ∷ (codes ".map", codes "application/json; charset=utf-8")
    ∷ []

lookup : Text → List (Text × Text) → Option Text
lookup k [] = none
lookup k ((j, v) ∷ m) = if text_eq j k then some v else lookup k m

unfoldable pub mime_of : Text → Text
unfolding lookup
mime_of ext = or_else (lookup ext mime_types) (codes "application/octet-stream")

abbrev pub immutable_caching : Text
immutable_caching = codes "public, max-age=31536000, immutable"

module _ (files : Files) where
  abbrev pub is_within : Text → Text → Bool
  is_within root candidate = text_eq candidate root || starts_with (root ++ (b'/' ∷ [])) candidate

  abbrev pub candidate_of : Text → Text → Text
  candidate_of root decoded = files.resolve (files.join root (files.normalize decoded))

  abbrev pub within : Text → Text → Option Text
  within root candidate = if is_within root candidate then some candidate else none

  abbrev pub resolve_decoded : Text → Option Text → Option Text
  resolve_decoded root none = none
  resolve_decoded root (some decoded) = within root (candidate_of root decoded)

  unfoldable pub resolve_within : Text → Text → Option Text
  resolve_within root pathname = resolve_decoded root (files.decode_uri_component pathname)

  abbrev pub answer_of : Text → Text → Option ℕ → Option FileAnswer
  answer_of path cache_control none = none
  answer_of path cache_control (some size) = some (record {
    file_path = path;
    content_type = mime_of (files.extname path);
    content_length = size;
    cache_control = cache_control;
  })

  unfoldable pub send_file : Text → Text → Option FileAnswer
  send_file path cache_control = answer_of path cache_control (files.file_size path)

  abbrev pub cache_control_of : Text → Text
  cache_control_of pathname =
      if starts_with (codes "/assets/") pathname then immutable_caching else codes "no-cache"

  -- The fallback to index.html, for navigations only.
  unfoldable pub fallback : Text → Text → Bool → Option FileAnswer
  fallback root pathname accepts_html =
      if not accepts_html || not (text_eq (files.extname pathname) [])
      then none
      else send_file (files.join root (codes "index.html")) (codes "no-cache")

  abbrev pub or_fallback : Option FileAnswer → Option FileAnswer → Option FileAnswer
  or_fallback none next = next
  or_fallback (some answer) next = some answer

  abbrev pub serve_resolved : Text → Text → Bool → Option Text → Option FileAnswer
  serve_resolved root pathname accepts_html none = none
  serve_resolved root pathname accepts_html (some path) =
      if text_eq pathname (codes "/")
      then fallback root pathname accepts_html
      else or_fallback (send_file path (cache_control_of pathname))
          (fallback root pathname accepts_html)

  -- `none` where it returns false: nothing has been answered.
  unfoldable pub serve_static : Text → Text → Bool → Option FileAnswer
  serve_static root pathname accepts_html =
      serve_resolved root pathname accepts_html (resolve_within root pathname)

  send_file_path :
      (path cache_control : Text) (a : FileAnswer)
      → send_file path cache_control ≡ some a
      → (a.file_path ≡ path) × (a.cache_control ≡ cache_control)
  unfolding send_file
  send_file_path path cache_control a h = ground arith

  resolve_within_sound :
      (root pathname path : Text)
      → resolve_within root pathname ≡ some path
      → is_within root path ≡ true
  unfolding resolve_within
  resolve_within_sound root pathname path h =
      elim (Option-cases (files.decode_uri_component pathname)) [
        | inl bad ↦ absurd (ground (arith, bad))
        | inr (d, good) ↦ ground (arith, good)
      ]

  fallback_sound :
      (root pathname : Text) (accepts_html : Bool) (a : FileAnswer)
      → fallback root pathname accepts_html ≡ some a
      → (a.file_path ≡ files.join root (codes "index.html"))
        × (a.cache_control ≡ codes "no-cache")
        × (accepts_html ≡ true)
        × (text_eq (files.extname pathname) [] ≡ true)
  unfolding fallback
  fallback_sound root pathname accepts_html a h =
      ground (arith, send_file_path (files.join root (codes "index.html")) (codes "no-cache") a)

  pub serve_static_sound :
      (root pathname : Text) (accepts_html : Bool) (a : FileAnswer)
      → serve_static root pathname accepts_html ≡ some a
      → ((is_within root a.file_path ≡ true) × (a.cache_control ≡ cache_control_of pathname))
        ⊎ ((a.file_path ≡ files.join root (codes "index.html"))
            × (a.cache_control ≡ codes "no-cache")
            × (accepts_html ≡ true)
            × (text_eq (files.extname pathname) [] ≡ true))
  unfolding serve_static
  serve_static_sound root pathname accepts_html a h =
      elim (Option-cases (resolve_within root pathname)) [
        | inl out ↦ absurd (ground (arith, out))
        | inr (path, inside) ↦ elim (Bool-cases (text_eq pathname (codes "/"))) [
          | inl index ↦
              inr (fallback_sound root pathname accepts_html a (ground (arith, inside, index)))
          | inr other ↦ elim (Option-cases (send_file path (cache_control_of pathname))) [
            | inr (b, sent) ↦
                let same : b ≡ a = ground (arith, inside, other, sent) in
                let (p, c) = send_file_path path (cache_control_of pathname) b sent in
                inl (
                  ground (arith, same, p, resolve_within_sound root pathname path inside),
                  ground (arith, same, c),
                )
            | inl missed ↦ inr (
                fallback_sound root pathname accepts_html a (ground (arith, inside, other, missed)))
          ]
        ]
      ]
