-- ===== src/Cached.antt =====
-- What Open of the objects of google/store.go, awss3/store.go and azure/store.go does to the cached
-- copy. The three have it in the same words.
pub mod Calm
use cloudstorage.Base.{
  ℕ, zero, suc, ◌+◌, ◌-◌, ◌*◌, ◌/◌, ◌%◌, ◌^◌, ◌≤◌, ◌<◌, ◌≡◌, refl, sym, ap, ◌∙◌, ◌≢◌, ◌↔◌, ◌⊎◌, inl,
  inr, Bool, true, false, not, ◌&&◌, ◌||◌, Option, none, some, List, [], ◌∷◌, ◌++◌, map, arith,
  Bool-cases, Option-cases, present, Str, String, lit, str_eq, str_eq_iff, str_eq_refl, ltb, leb,
  ◌==◌, ==_iff, if◌then◌else◌, length, take, drop, keep, All, get_elem?, length-append, length-drop,
  drop-nil, Err, object_not_found, object_exists, iterator_done, canceled, deadline_exceeded,
  not_exist, exist, file_closed, bad_handle, eof, io, message, Outcome, ok, fail, Act, return,
  throw, attempt, ◌>>=◌, ◌>>◌, proceed, proceed-eq-ok, Outcome-cases, deferring, quietly,
  describing, described, proceed-ok,
}
use cloudstorage.Os
use cloudstorage.Os.{Os, reading, truncating, open_file, seek_start, close, remove, mkdir_all}
use cloudstorage.Strings.Paths.{dir}
use cloudstorage.FileHelper.{ensure_dir}

-- What a pass of the loop of Open ends with: another pass, or the copy on a handle.
pub data Turn : Type 0 where
  retry ready : ℕ → Turn

-- Behind the copy of the bytes: after an error the copy is made anew, and there is another pass.
unfoldable pub filled : Str → ℕ → Outcome (Unit {0}) → Act Os Turn
filled cachepath h (ok _) = return (ready h)
filled cachepath h (fail e) = do
  describing "error resetting the cachedcopy" (remove cachepath)
  h' ← describing "error creating a new cachedcopy file." (open_file cachepath truncating)
  return (retry h')

unfoldable pub hand_copy : Bool → ℕ → Str → Act Os ℕ
hand_copy true h cachepath = do
  quietly (close h)
  describing "error opening file." (open_file cachepath reading)
hand_copy false h cachepath = do
  describing "error seeking to start of cachedcopy" (seek_start h)
  return h

-- The cached copy of a new pull
unfoldable pub create_copy : Str → Act Os ℕ
create_copy cachepath = do
  describing "error occurred creating cachedcopy dir." (mkdir_all (dir cachepath))
  describing "error occurred creating cachedcopy's dir." (ensure_dir cachepath)
  describing "error occurred creating file." (open_file cachepath truncating)
