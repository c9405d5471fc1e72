-- ===== src/Cloud/Syncing.antt =====
-- Sync of the objects of awss3/store.go and azure/store.go. The upload of the file is a parameter,
-- since each of the two has its own.
pub mod Pushed
use cloudstorage.Base.{
  ℕ, zero, suc, ◌+◌, ◌-◌, ◌*◌, ◌/◌, ◌%◌, ◌^◌, ◌≤◌, ◌<◌, ◌≡◌, refl, sym, ap, ◌∙◌, ◌≢◌, ◌↔◌, ◌⊎◌, inl,
  inr, Bool, true, false, not, ◌&&◌, ◌||◌, Option, none, some, List, [], ◌∷◌, ◌++◌, map, arith,
  Bool-cases, Option-cases, present, Str, String, lit, str_eq, str_eq_iff, str_eq_refl, ltb, leb,
  ◌==◌, ==_iff, if◌then◌else◌, length, take, drop, keep, All, get_elem?, length-append, length-drop,
  drop-nil, Err, object_not_found, object_exists, iterator_done, canceled, deadline_exceeded,
  not_exist, exist, file_closed, bad_handle, eof, io, message, Outcome, ok, fail, Act, return,
  throw, attempt, ◌>>=◌, ◌>>◌, proceed, proceed-eq-ok, Outcome-cases, deferring, quietly,
  describing, described, proceed-ok,
}
use cloudstorage.Os
use cloudstorage.Os.{Os, updating, open_file, seek_start, close}
use cloudstorage.Cloud.Object.{State, on_os}

module _ {C : Type 0} (upload_file : ℕ → Act (State C) (Unit {0})) where
  put_file : ℕ → Act (State C) (Unit {0})
  put_file h = do
    on_os λ o. describing "error seeking to start of cachedcopy" (seek_start h)
    describing "failed to upload file, %v" (upload_file h)

  -- What Sync does behind its tests.
  push_copy : Act (State C) (Unit {0})
  unfolding put_file
  push_copy = do
    h ←
        on_os
          λ o. describing "couldn't open localfile for sync'ing." (open_file o.cachepath updating)
    deferring (on_os λ o. close h) (put_file h)

  -- Sync
  unfoldable pub sync_object : Act (State C) (Unit {0})
  unfolding push_copy
  sync_object (o, w) =
      if not o.opened
      then (fail (message "object isn't opened object:%s"), (o, w))
      else if o.readonly
      then (fail (message "trying to Sync a readonly object:%s"), (o, w))
      else push_copy (o, w)
