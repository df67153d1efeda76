-- ===== src/Mail/Sync/Capped.antt =====
-- The page loop of services/email-ingestion/src/sync/mail-sync.service.ts under its cap.
use finlytic_ecosystem.Prelude.{
  ℕ, zero, suc, ◌+◌, ◌≤◌, ◌<◌, ◌≡◌, ◌≢◌, Bool, true, ◌&&◌, Option, none, some, List, [],
  if◌then◌else◌, arith, Bool-cases, Option-cases, inl, inr, ltb, length, or_else,
}
use finlytic_ecosystem.Prelude.Text.{Text}
use finlytic_ecosystem.Prelude.Effects.{Result, ok, err}
use finlytic_ecosystem.Mail.Store.{Error, out_of_fuel}
use finlytic_ecosystem.Mail.Sync.{
  Adapter, MessageChangePage, Found, collect, add_ids, max_ids_per_run, after_page, truthy,
}

-- A page that is not the last brings an id that is not collected, and so do those after it.
abbrev brings_new :
    (List Text → Option Text → Bool) → List Text → Result Error MessageChangePage → Bool
brings_new later collected (err e) = true
brings_new later collected (ok page) =
    if page.cursor_invalid
    then true
    else let ids = add_ids page.message_ids collected in
      elim (truthy page.next_page_token) [
        | none ↦ true
        | some token ↦ ltb (length collected) (length ids) && later ids (some token)
      ]

-- So do the first `n` pages that are asked for.
unfoldable pub all_bring_new : Adapter → Text → ℕ → List Text → Option Text → Bool
all_bring_new adapter cursor zero collected token = true
all_bring_new adapter cursor (suc n) collected token =
    brings_new (all_bring_new adapter cursor n) collected
      (adapter.list_changed_message_ids cursor token)

after_page_capped :
    (adapter : Adapter) (cursor : Text) (again : List Text → Text → Option Text → Found)
    (later : List Text → Option Text → Bool) (collected : List Text) (next : Text)
    (r : Result Error MessageChangePage)
    → r ≢ err out_of_fuel
    → brings_new later collected r ≡ true
    → ((c : List Text) (x token : Text)
        → length collected < length c
        → length c < max_ids_per_run
        → later c (some token) ≡ true
        → again c x (some token) ≢ err out_of_fuel)
    → after_page adapter cursor again collected next r ≢ err out_of_fuel
unfolding after_page
after_page_capped adapter cursor again later collected next (err e) real fresh rest h =
    real (ground (arith, h))
after_page_capped adapter cursor again later collected next (ok page) real fresh rest h =
    elim (Bool-cases page.cursor_invalid) [
      | inl invalid ↦ absurd (ground (arith, invalid, h))
      | inr valid ↦ elim (Option-cases (truthy page.next_page_token)) [
        | inl last ↦ absurd (ground (arith, valid, last, h))
        | inr (token, more) ↦
            let ids = add_ids page.message_ids collected in
            elim (Bool-cases (ltb (length ids) max_ids_per_run)) [
              | inl under ↦
                  rest ids (or_else (truthy page.cursor) next) token
                    (ground (arith, valid, more, fresh)) (ground (arith, under))
                    (ground (arith, valid, more, fresh)) (rw (valid, more, under) at h)
              | inr over ↦ absurd (cc (rw (valid, more, over) at h))
            ]
      ]
    ]

collect_within :
    (adapter : Adapter) (cursor : Text) (n : ℕ) (collected : List Text) (next : Text)
    (token : Option Text)
    → ((t : Option Text) → adapter.list_changed_message_ids cursor t ≢ err out_of_fuel)
    → all_bring_new adapter cursor n collected token ≡ true
    → length collected < max_ids_per_run
    → max_ids_per_run ≤ length collected + n
    → collect adapter cursor n collected next token ≢ err out_of_fuel
unfolding all_bring_new collect
collect_within adapter cursor zero collected next token real fresh under enough =
    absurd (omega (arith, under, enough))
collect_within adapter cursor (suc n) collected next token real fresh under enough =
    after_page_capped adapter cursor (collect adapter cursor n) (all_bring_new adapter cursor n)
      collected next (adapter.list_changed_message_ids cursor token) (real token) fresh
      (λ c x t grown below later.
        collect_within adapter cursor n c x (some t) real later below
          (omega (arith, enough, grown)))

-- A provider that never runs out of pages does not keep a sync going: where each page that is not the
-- last brings a new id, the loop ends within 200 pages, whatever pages there are. No request
-- of the adapter itself reports out_of_fuel.
pub collect_capped :
    (adapter : Adapter) (cursor : Text)
    → ((t : Option Text) → adapter.list_changed_message_ids cursor t ≢ err out_of_fuel)
    → all_bring_new adapter cursor max_ids_per_run [] none ≡ true
    → collect adapter cursor max_ids_per_run [] cursor none ≢ err out_of_fuel
collect_capped adapter cursor real fresh =
    collect_within adapter cursor max_ids_per_run [] cursor none real fresh (omega arith)
      (omega arith)
