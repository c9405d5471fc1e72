-- ===== src/Google/Pushing.antt =====
-- Sync of the object of google/store.go.
pub mod Content
use cloudstorage.Base.{
  ℕ, zero, suc, ◌+◌, ◌-◌, ◌*◌, ◌/◌, ◌%◌, ◌^◌, ◌≤◌, ◌<◌, ◌≡◌, refl, sym, ap, ◌∙◌, ◌≢◌, ◌↔◌, ◌⊎◌, inl,
  inr, Bool, true, false, not, ◌&&◌, ◌||◌, Option, none, some, List, [], ◌∷◌, ◌++◌, map, arith,
  Bool-cases, Option-cases, present, Str, String, lit, str_eq, str_eq_iff, str_eq_refl, ltb, leb,
  ◌==◌, ==_iff, if◌then◌else◌, length, take, drop, keep, All, get_elem?, length-append, length-drop,
  drop-nil, Err, object_not_found, object_exists, iterator_done, canceled, deadline_exceeded,
  not_exist, exist, file_closed, bad_handle, eof, io, message, Outcome, ok, fail, Act, return,
  throw, attempt, ◌>>=◌, ◌>>◌, proceed, proceed-eq-ok, Outcome-cases, deferring, quietly,
  describing, described, proceed-ok,
}
use cloudstorage.Base.Dict.{Dict}
use cloudstorage.Os
use cloudstorage.Os.{Os, updating, open_file, seek_start, close, drain}
use cloudstorage.FileHelper.{ensure_context_type}
use cloudstorage.Google.Client.{Attrs, Client}
use cloudstorage.Google.Object.{Object, State, on_os, on_service, sleep}

-- GCSRetries, the table of the package `mime`, the client, and the service after a sleep of Backoff.
module _ {C : Type 0} (gcs_retries : ℕ) (type_by_extension : Str → Str) (client : Client C)
    (backoff : ℕ → C → C) where
  open client use {start_writer, send, close_writer, close_with_error}

  -- The metadata of an object that has some, with its content type.
  typed : Object → Option (Dict Str × Str)
  typed o = elim o.metadata [
    | none ↦ none
    | some md ↦
        let (ctype, md') = ensure_context_type type_by_extension o.name md in some (md', ctype)
  ]

  kept_type : Option (Dict Str × Str) → Option (Dict Str)
  kept_type none = none
  kept_type (some (md, ctype)) = some md

  -- NewWriter with the metadata, in which the content type is set.
  begin_writer : Act (State C) ℕ
  unfolding typed kept_type
  begin_writer (o, (c, os)) =
      let (wc, c') = start_writer o.bucket o.name (typed o) false c in
      (ok wc, (record o { metadata = kept_type (typed o) }, (c', os)))

  -- io.Copy to the writer of what the copy gives, up to an error of its own
  send_all : ℕ → Str × Option Err → Act (State C) (Unit {0})
  send_all wc (bytes, none) = on_service λ o. send wc bytes
  send_all wc (bytes, some e) = do on_service λ o. send wc bytes; throw e

  -- Whether the upload is done.
  sent : ℕ → Outcome (Unit {0}) → Act (State C) Bool
  sent wc (fail e) = do quietly (on_service λ o. close_with_error wc e); return false
  sent wc (ok _) = do
    r ← attempt (on_service λ o. close_writer wc)
    return (elim r [ ok u ↦ true | fail e ↦ false ])

  upload : ℕ → Act (State C) Bool
  unfolding begin_writer send_all sent
  upload h = do
    on_os (λ o. describing "error seeking to start of cachedcopy" (seek_start h))
    wc ← begin_writer
    text ← on_os (λ o. drain h)
    r ← attempt (send_all wc text)
    sent wc r

  uploaded : Act (State C) (Unit {0}) → ℕ → Bool → Act (State C) (Unit {0})
  uploaded again try true = return tt
  uploaded again try false = do sleep backoff try; again

  sync_loop : ℕ → ℕ → ℕ → Act (State C) (Unit {0})
  unfolding upload uploaded
  sync_loop zero try h = throw (message "GCS sync error after retry")
  sync_loop (suc left) try h = upload h >>= uploaded (sync_loop left (try + 1) h) try

  -- What Sync does behind its tests.
  push_copy : Act (State C) (Unit {0})
  unfolding sync_loop
  push_copy = do
    h ←
        on_os
          (λ o. describing "couldn't open localfile for sync'ing." (open_file o.cachepath updating))
    deferring (on_os (λ o. close h)) (sync_loop gcs_retries 0 h)

  -- Sync
  unfoldable pub sync_object : Act (State C) (Unit {0})
  unfolding push_copy
  sync_object (o, w) =
      if not o.opened
      then (fail (message "object isn't opened object:%s"), (o, w))
      else if o.readonly
      then (fail (message "trying to Sync a readonly object:%s"), (o, w))
      else push_copy (o, w)
