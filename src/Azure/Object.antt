-- ===== src/Azure/Object.antt =====
-- The object of azure/store.go.
pub mod Pushed
use cloudstorage.Base.{
  ℕ, zero, suc, ◌+◌, ◌-◌, ◌*◌, ◌/◌, ◌%◌, ◌^◌, ◌≤◌, ◌<◌, ◌≡◌, refl, sym, ap, ◌∙◌, ◌≢◌, ◌↔◌, ◌⊎◌, inl,
  inr, Bool, true, false, not, ◌&&◌, ◌||◌, Option, none, some, List, [], ◌∷◌, ◌++◌, map, arith,
  Bool-cases, Option-cases, present, Str, String, lit, str_eq, str_eq_iff, str_eq_refl, ltb, leb,
  ◌==◌, ==_iff, if◌then◌else◌, length, take, drop, keep, All, get_elem?, length-append, length-drop,
  drop-nil, Err, object_not_found, object_exists, iterator_done, canceled, deadline_exceeded,
  not_exist, exist, file_closed, bad_handle, eof, io, message, Outcome, ok, fail, Act, return,
  throw, attempt, ◌>>=◌, ◌>>◌, proceed, proceed-eq-ok, Outcome-cases, deferring, quietly,
  describing, described, proceed-ok,
}
use cloudstorage.Base.Dict.{Dict}
use cloudstorage.Os
use cloudstorage.Os.{Os, updating, open_file, seek_start, close, read, unread}
use cloudstorage.LocalFs.Object.{AccessLevel}
use cloudstorage.Cloud.Object.{Object, State, on_os, on_service}
use cloudstorage.Cloud.Opening
use cloudstorage.Cloud.Syncing
use cloudstorage.Cloud.Closing
use cloudstorage.Azure.Client.{Container}
use cloudstorage.Azure.Upload.{Reader, upload_multi_part}
use cloudstorage.Azure.Store
use cloudstorage.Azure.Store.{Fs, get_open_object}

-- Retries of azure/store.go
abbrev pub retries : ℕ
retries = 3

-- A map that is nil has no entries.
abbrev or_nil : Option (Dict Str) → Dict Str
or_nil none = []
or_nil (some metadata) = metadata

-- File.Read, as an io.Reader: a file gives no bytes with an error.
abbrev as_read : Outcome Str × Os → (Str × Option Err) × Os
as_read (ok bytes, os) = ((bytes, none), os)
as_read (fail e, os) = (([], some e), os)

abbrev pub reader : ℕ → Reader Os
reader h size os = as_read (read h size os)

module _ {C : Type 0} (f : Fs) (container : Container C) (copy_fuel : ℕ) (backoff : ℕ → C → C) where
  -- Open
  abbrev pub open_object : AccessLevel → Act (State C) ℕ
  open_object =
      Opening.open_object retries copy_fuel (λ o. get_open_object f container o.name)
        container.read_body backoff

  -- Write
  abbrev pub write_object : Str → Act (State C) ℕ
  write_object =
      Opening.write_object retries copy_fuel (λ o. get_open_object f container o.name)
        container.read_body backoff

  -- uploadMultiPart, with fuel for a read of each byte and the read that says there are no more
  upload_file : ℕ → Act (State C) (Unit {0})
  unfolding upload_multi_part
  upload_file h (o, (c, os)) =
      let (r, (os', c')) =
        upload_multi_part (reader h) container.blob_service o.name (suc (length (unread os h)))
          (or_nil o.metadata) (os, c) in
      (r, (o, (c', os')))

  -- Sync
  unfoldable pub sync_object : Act (State C) (Unit {0})
  unfolding upload_file
  sync_object = Syncing.sync_object upload_file

  -- Close
  abbrev pub close_object : Act (State C) (Unit {0})
  close_object = Closing.close_object sync_object

  -- Delete of an object
  abbrev pub delete_object : Act (State C) (Unit {0})
  delete_object = on_service λ o. Store.delete f container o.name

-- Release
abbrev pub release_object : {C : Type 0} → Act (State C) (Unit {0})
release_object = Closing.release_object
