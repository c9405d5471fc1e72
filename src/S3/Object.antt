-- ===== src/S3/Object.antt =====
-- The object of awss3/store.go.
pub mod Pushed
use cloudstorage.Base.{
  ℕ, zero, suc, ◌+◌, ◌-◌, ◌*◌, ◌/◌, ◌%◌, ◌^◌, ◌≤◌, ◌<◌, ◌≡◌, refl, sym, ap, ◌∙◌, ◌≢◌, ◌↔◌, ◌⊎◌, inl,
  inr, Bool, true, false, not, ◌&&◌, ◌||◌, Option, none, some, List, [], ◌∷◌, ◌++◌, map, arith,
  Bool-cases, Option-cases, present, Str, String, lit, str_eq, str_eq_iff, str_eq_refl, ltb, leb,
  ◌==◌, ==_iff, if◌then◌else◌, length, take, drop, keep, All, get_elem?, length-append, length-drop,
  drop-nil, Err, object_not_found, object_exists, iterator_done, canceled, deadline_exceeded,
  not_exist, exist, file_closed, bad_handle, eof, io, message, Outcome, ok, fail, Act, return,
  throw, attempt, ◌>>=◌, ◌>>◌, proceed, proceed-eq-ok, Outcome-cases, deferring, quietly,
  describing, described, proceed-ok,
}
use cloudstorage.Os
use cloudstorage.Os.{Os, updating, open_file, seek_start, close, drain}
use cloudstorage.LocalFs.Object.{AccessLevel}
use cloudstorage.Cloud.Object.{Object, State, on_os, on_service}
use cloudstorage.Cloud.Opening
use cloudstorage.Cloud.Syncing
use cloudstorage.Cloud.Closing
use cloudstorage.S3.Client.{Client}
use cloudstorage.S3.Store
use cloudstorage.S3.Store.{Fs, get_s3_open_object}

-- Retries of awss3/store.go
abbrev pub retries : ℕ
retries = 3

module _ {C : Type 0} (f : Fs) (client : Client C) (copy_fuel : ℕ) (backoff : ℕ → C → C) where
  -- Open
  abbrev pub open_object : AccessLevel → Act (State C) ℕ
  open_object =
      Opening.open_object retries copy_fuel (λ o. get_s3_open_object f client o.name)
        client.read_body backoff

  -- Write
  abbrev pub write_object : Str → Act (State C) ℕ
  write_object =
      Opening.write_object retries copy_fuel (λ o. get_s3_open_object f client o.name)
        client.read_body backoff

  -- The uploader reads the file to its end.
  unfoldable pub upload_file : ℕ → Act (State C) (Unit {0})
  upload_file h = do text ← on_os λ o. drain h; on_service λ o. client.upload f.bucket o.name text

  -- Sync
  unfoldable pub sync_object : Act (State C) (Unit {0})
  unfolding upload_file
  sync_object = Syncing.sync_object upload_file

  -- Close
  abbrev pub close_object : Act (State C) (Unit {0})
  close_object = Closing.close_object sync_object

  -- Delete of an object
  abbrev pub delete_object : Act (State C) (Unit {0})
  delete_object = on_service λ o. Store.delete f client o.name

-- Release
abbrev pub release_object : {C : Type 0} → Act (State C) (Unit {0})
release_object = Closing.release_object
