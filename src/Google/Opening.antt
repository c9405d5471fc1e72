-- ===== src/Google/Opening.antt =====
-- Open, Read and Write of the object of google/store.go.
pub mod Content
pub mod Download
use cloudstorage.Base.{
  ℕ, zero, suc, ◌+◌, ◌-◌, ◌*◌, ◌/◌, ◌%◌, ◌^◌, ◌≤◌, ◌<◌, ◌≡◌, refl, sym, ap, ◌∙◌, ◌≢◌, ◌↔◌, ◌⊎◌, inl,
  inr, Bool, true, false, not, ◌&&◌, ◌||◌, Option, none, some, List, [], ◌∷◌, ◌++◌, map, arith,
  Bool-cases, Option-cases, present, Str, String, lit, str_eq, str_eq_iff, str_eq_refl, ltb, leb,
  ◌==◌, ==_iff, if◌then◌else◌, length, take, drop, keep, All, get_elem?, length-append, length-drop,
  drop-nil, Err, object_not_found, object_exists, iterator_done, canceled, deadline_exceeded,
  not_exist, exist, file_closed, bad_handle, eof, io, message, Outcome, ok, fail, Act, return,
  throw, attempt, ◌>>=◌, ◌>>◌, proceed, proceed-eq-ok, Outcome-cases, deferring, quietly,
  describing, described, proceed-ok,
}
use cloudstorage.Os
use cloudstorage.Os.{
  Os, reading, truncating, open_file, write, read, seek_start, close, remove, mkdir_all,
}
use cloudstorage.Strings.Paths.{dir}
use cloudstorage.FileHelper.{ensure_dir}
use cloudstorage.LocalFs.Object.{AccessLevel, read_only, read_write, is_read_only, with_copy}
use cloudstorage.Cached.{Turn, retry, ready, filled, hand_copy, create_copy}
use cloudstorage.Google.Client.{Attrs, Client}
use cloudstorage.Google.Object.{Object, State, on_os, on_service, sleep}

-- What the reader gives is copied, up to its error.
write_body : ℕ → Str → Option Err → Act Os (Unit {0})
write_body h bytes end = do n ← write h bytes; elim end [ none ↦ return tt | some e ↦ throw e ]

pub fill_copy : ℕ → Str → Option Err → Object → Act Os Turn
unfolding write_body filled
fill_copy h bytes end o = do
  describing "error seeking to start of cachedcopy" (seek_start h)
  r ← attempt (write_body h bytes end)
  filled o.cachepath h r

-- GCSRetries, the client, and the service after a sleep of Backoff.
module _ {C : Type 0} (gcs_retries : ℕ) (client : Client C) (backoff : ℕ → C → C) where
  open client use {attrs, open_body}

  -- Whether the pass goes on behind Attrs.
  looked : Object → Os → Outcome Attrs × C → Outcome Bool × State C
  looked o os (ok a, c) = (ok true, (record o { google_object = some a }, (c, os)))
  looked o os (fail not_exist, c) = (ok true, (o, (c, os)))
  looked o os (fail e, c) = (ok false, (o, (c, os)))

  look : Act (State C) Bool
  unfolding looked
  look (o, (c, os)) = elim o.google_object [
    | some a ↦ (ok true, (o, (c, os)))
    | none ↦ looked o os (attrs o.bucket o.name c)
  ]

  got_body : ℕ → Object → Os → Outcome (Str × Option Err) × C → Outcome Turn × State C
  unfolding fill_copy
  got_body h o os (ok (bytes, end), c) = on_os (fill_copy h bytes end) (o, (c, os))
  got_body h o os (fail e, c) = (ok (retry h), (o, (c, os)))

  -- An object that is there is downloaded.
  fetch_body : ℕ → Act (State C) Turn
  unfolding got_body
  fetch_body h (o, (c, os)) = elim o.google_object [
    | none ↦ (ok (ready h), (o, (c, os)))
    | some a ↦ got_body h o os (open_body o.bucket o.name c)
  ]

  pull : ℕ → Bool → Act (State C) Turn
  unfolding fetch_body
  pull h true = fetch_body h
  pull h false = return (retry h)

  pass : ℕ → Act (State C) Turn
  unfolding look pull
  pass h = do there ← look; pull h there

  turned : (ℕ → Act (State C) ℕ) → ℕ → Bool → Turn → Act (State C) ℕ
  unfolding hand_copy
  turned again try readonly (retry h) = do sleep backoff try; again h
  turned again try readonly (ready h) = on_os (λ o. hand_copy readonly h o.cachepath)

  -- `for try := 0; try < GCSRetries; try++`, with the number of passes left first.
  open_loop : ℕ → ℕ → Bool → ℕ → Act (State C) ℕ
  unfolding pass turned
  open_loop zero try readonly h = throw (message "fetch error retry cnt reached")
  open_loop (suc left) try readonly h =
      pass h >>= turned (open_loop left (try + 1) readonly) try readonly

  mark_open : Bool → Outcome ℕ × State C → Outcome ℕ × State C
  mark_open readonly (ok h, (o, w)) =
      (ok h, (record o { cachedcopy = some h; readonly = readonly; opened = true }, w))
  mark_open readonly (fail e, s) = (fail e, s)

  -- Open
  unfoldable pub open_object : AccessLevel → Act (State C) ℕ
  unfolding create_copy open_loop mark_open
  open_object level (o, w) =
      if o.opened
      then (fail (message "the store object is already opened. %s"), (o, w))
      else mark_open (is_read_only level) (
          (do
            h ← on_os (λ o. create_copy o.cachepath)
            open_loop gcs_retries 0 (is_read_only level) h)
            (o, w))

  -- Read and Write
  unfoldable pub read_object : ℕ → Act (State C) Str
  read_object size = on_os λ o. with_copy (λ h. read h size) o.cachedcopy

  write_copy : Str → Act (State C) ℕ
  write_copy bytes = on_os λ o. with_copy (λ h. write h bytes) o.cachedcopy

  unfoldable pub write_object : Str → Act (State C) ℕ
  unfolding write_copy open_object
  write_object bytes (o, w) =
      if present o.cachedcopy
      then write_copy bytes (o, w)
      else (do h ← open_object read_write; write_copy bytes) (o, w)
