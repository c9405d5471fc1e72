-- ===== src/LocalFs/Object.antt =====
-- The object of localfs/store.go: a file of the store and its cached copy. A method acts on the
-- object and on the file system.
pub mod Closing
pub mod Deleting
pub mod Lifetime
pub mod Syncing
use cloudstorage.Base.{
  ℕ, zero, suc, ◌+◌, ◌-◌, ◌*◌, ◌/◌, ◌%◌, ◌^◌, ◌≤◌, ◌<◌, ◌≡◌, refl, sym, ap, ◌∙◌, ◌≢◌, ◌↔◌, ◌⊎◌, inl,
  inr, Bool, true, false, not, ◌&&◌, ◌||◌, Option, none, some, List, [], ◌∷◌, ◌++◌, map, arith,
  Bool-cases, Option-cases, present, Str, String, lit, str_eq, str_eq_iff, str_eq_refl, ltb, leb,
  ◌==◌, ==_iff, if◌then◌else◌, length, take, drop, keep, All, get_elem?, length-append, length-drop,
  Err, object_not_found, object_exists, iterator_done, canceled, deadline_exceeded, not_exist,
  exist, file_closed, bad_handle, eof, io, message, Outcome, ok, fail, Act, return, throw, attempt,
  ◌>>=◌, ◌>>◌, proceed, proceed-eq-ok, Outcome-cases, deferring, quietly, describing, described,
  proceed-ok,
}
use cloudstorage.Base.Dict
use cloudstorage.Base.Dict.{Dict}
use cloudstorage.Os
use cloudstorage.Os.{
  Os, reading, creating, truncating, open_file, copy, write, read, seek_start, sync, close, remove,
  exists, write_file,
}
use cloudstorage.FileHelper.{ensure_dir}

-- AccessLevel
pub data AccessLevel : Type 0 where
  read_only read_write : AccessLevel

-- A nil map of metadata and a nil file are `none`; a file is its handle.
pub record Object : Type 0 where
  pub name : Str
  pub updated : ℕ
  pub metadata : Option (Dict Str)
  pub storepath : Str
  pub cachepath : Str
  pub cachedcopy : Option ℕ
  pub readonly : Bool
  pub opened : Bool

-- A method, and one that leaves the object alone.
abbrev pub Method : Type 0 → Type 0
Method A = Act (Object × Os) A

abbrev pub on_files {ℓ} :
    {A : Type ℓ} → (Object → Act Os A) → Object × Os → Outcome A × (Object × Os)
on_files m (o, os) = let (r, os') = m o os in (r, (o, os'))

abbrev pub metadata_path : Object → Str
metadata_path o = o.storepath ++ lit ".metadata"

-- Calls on a file pointer that may be nil
abbrev pub with_copy {ℓ} : {A : Type ℓ} → (ℕ → Act Os A) → Option ℕ → Act Os A
with_copy m none = throw bad_handle
with_copy m (some h) = m h

unfoldable pub is_read_only : AccessLevel → Bool
is_read_only read_only = true
is_read_only read_write = false

-- The cached copy is opened anew for reading, or read from its start.
ready_copy : Bool → Str → ℕ → Act Os ℕ
ready_copy true cachepath h = do
  quietly (close h)
  describing "localfs: could not opencache" (open_file cachepath reading)
ready_copy false cachepath h = do
  describing "error seeking to start of cachedcopy" (seek_start h)
  return h

-- What Open does behind the store's file.
fill_copy : Object → Bool → ℕ → Act Os ℕ
unfolding ready_copy
fill_copy o readonly storecopy = do
  describing "localfs: could not create cachedcopy dir" (ensure_dir o.cachepath)
  h ← describing "localfs: could not create cachedcopy" (open_file o.cachepath truncating)
  n ← describing "localfs: could not copy from store to cache" (copy h storecopy)
  ready_copy readonly o.cachepath h

open_copy : Bool → Object → Act Os ℕ
unfolding fill_copy
open_copy readonly o = do
  storecopy ← describing "localfs: could not create storecopy" (open_file o.storepath creating)
  deferring (close storecopy) (fill_copy o readonly storecopy)

opened_with : Bool → Outcome ℕ × (Object × Os) → Outcome ℕ × (Object × Os)
opened_with readonly (ok h, (o, os)) =
    (ok h, (record o { cachedcopy = some h; readonly = readonly; opened = true }, os))
opened_with readonly (fail e, s) = (fail e, s)

-- Open
unfoldable pub open_object : AccessLevel → Method ℕ
unfolding open_copy opened_with is_read_only
open_object level (o, os) =
    if o.opened
    then (fail (message "the store object is already opened. %s"), (o, os))
    else opened_with (is_read_only level) (on_files (open_copy (is_read_only level)) (o, os))

-- Read and Write
unfoldable pub read_object : ℕ → Method Str
read_object size = on_files λ o. with_copy (λ h. read h size) o.cachedcopy

write_copy : Str → Method ℕ
write_copy bytes = on_files λ o. with_copy (λ h. write h bytes) o.cachedcopy

unfoldable pub write_object : Str → Method ℕ
unfolding write_copy open_object
write_object bytes (o, os) =
    if present o.cachedcopy
    then write_copy bytes (o, os)
    else (do h ← open_object read_write; write_copy bytes) (o, os)

-- Metadata that is there and not empty is replaced by an empty map.
abbrev pub kept_metadata : Option (Dict Str) → Option (Dict Str)
kept_metadata none = none
kept_metadata (some []) = some []
kept_metadata (some (x ∷ md)) = some []

clear_metadata : Method (Unit {0})
clear_metadata (o, os) = (ok tt, (record o { metadata = kept_metadata o.metadata }, os))

sync_copy : Method (Unit {0})
sync_copy (o, os) =
    if o.readonly then (ok tt, (o, os)) else on_files (λ p. with_copy sync p.cachedcopy) (o, os)

unless_closed : Outcome (Unit {0}) × (Object × Os) → Outcome (Unit {0}) × (Object × Os)
unless_closed (fail file_closed, s) = (ok tt, s)
unless_closed x = x

-- An error that says that the file was closed before is none.
close_copy : Method (Unit {0})
unfolding unless_closed
close_copy s = unless_closed (on_files (λ o. with_copy close o.cachedcopy) s)

drop_copy : Method (Unit {0})
drop_copy (o, os) = (
  ok tt,
  (
    record o { cachedcopy = none; opened = false },
    elim o.cachedcopy [ none ↦ os | some h ↦ (remove (os.handles h).path os).1 ],
  ),
)

-- json.MarshalIndent of the metadata is a parameter.
module _ (marshal : Option (Dict Str) → Str) where
  -- writemeta
  unfoldable pub writemeta : Str → Option (Dict Str) → Act Os (Unit {0})
  unfolding write_file
  writemeta filename meta = write_file filename (marshal meta)

  copy_back : ℕ → ℕ → Method (Unit {0})
  unfolding writemeta clear_metadata
  copy_back storecopy cachedcopy = do
    n ← on_files (λ o. copy storecopy cachedcopy)
    clear_metadata
    on_files (λ o. writemeta (metadata_path o) o.metadata)

  -- What Sync does behind its tests.
  store_copy : Method (Unit {0})
  unfolding copy_back
  store_copy = do
    cachedcopy ← on_files (λ o. open_file o.cachepath reading)
    deferring (on_files (λ o. close cachedcopy)) (do
      storecopy ← on_files (λ o. open_file o.storepath truncating)
      deferring (on_files (λ o. close storecopy)) (copy_back storecopy cachedcopy))

  -- Sync
  unfoldable pub sync_object : Method (Unit {0})
  unfolding store_copy
  sync_object (o, os) =
      if not o.opened
      then (fail (message "object isn't opened %s"), (o, os))
      else if o.readonly
      then (fail (message "trying to Sync a readonly object %s"), (o, os))
      else store_copy (o, os)

  sync_back : Method (Unit {0})
  unfolding sync_object
  sync_back (o, os) = if o.opened && not o.readonly then sync_object (o, os) else (ok tt, (o, os))

  closing : Method (Unit {0})
  unfolding sync_copy close_copy sync_back
  closing = do sync_copy; close_copy; sync_back

  -- Close
  unfoldable pub close_object : Method (Unit {0})
  unfolding closing drop_copy
  close_object (o, os) =
      if not o.opened then (ok tt, (o, os)) else deferring drop_copy closing (o, os)

forget_copy : Method (Unit {0})
forget_copy (o, os) = (ok tt, (record o { cachedcopy = none; opened = false }, os))

release_copy : ℕ → Method (Unit {0})
unfolding forget_copy
release_copy h = do
  quietly (on_files (λ o. close h))
  forget_copy
  on_files (λ o. remove o.cachepath)

-- Release
unfoldable pub release_object : Method (Unit {0})
unfolding release_copy
release_object (o, os) =
    (do
      elim o.cachedcopy [ none ↦ return tt | some h ↦ release_copy h ]
      quietly (on_files (λ p. remove p.cachepath)))
      (o, os)

remove_if : Str → Bool → Act Os (Unit {0})
remove_if path true = remove path
remove_if path false = return tt

-- Delete of an object
unfoldable pub delete_object : Method (Unit {0})
unfolding release_object remove_if
delete_object = do
  quietly release_object
  on_files (λ o. remove o.storepath)
  there ← on_files (λ o. exists (metadata_path o))
  on_files (λ o. remove_if (metadata_path o) there)
