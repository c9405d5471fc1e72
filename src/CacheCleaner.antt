-- ===== src/CacheCleaner.antt =====
-- cachecleaner.go: cached copies that a process has left are removed.
pub mod Laws
use cloudstorage.Base.{
  ℕ, zero, suc, ◌+◌, ◌-◌, ◌*◌, ◌/◌, ◌%◌, ◌^◌, ◌≤◌, ◌<◌, ◌≡◌, refl, sym, ap, ◌∙◌, ◌≢◌, ◌↔◌, ◌⊎◌, inl,
  inr, Bool, true, false, not, ◌&&◌, ◌||◌, Option, none, some, List, [], ◌∷◌, ◌++◌, map, arith,
  Bool-cases, Option-cases, present, Str, String, lit, str_eq, str_eq_iff, str_eq_refl, ltb, leb,
  ◌==◌, ==_iff, if◌then◌else◌, length, take, drop, keep, All, get_elem?, length-append, length-drop,
  drop-nil, Err, object_not_found, object_exists, iterator_done, canceled, deadline_exceeded,
  not_exist, exist, file_closed, bad_handle, eof, io, message, Outcome, ok, fail, Act, return,
  throw, attempt, ◌>>=◌, ◌>>◌, proceed, proceed-eq-ok, Outcome-cases, deferring, quietly,
  describing, described, proceed-ok,
}
use cloudstorage.Strings.Paths.{ext}
use cloudstorage.Os.{Os, Entry, directory, file, remove}
use cloudstorage.Os.Walk.{walk}
use cloudstorage.FileHelper.{store_cache_file_ext}

-- A file that was last written before now less the age. Directories have no times here, and none of
-- them is that old.
abbrev pub is_old : ℕ → Os → Entry → Bool
is_old maxage os directory = false
is_old maxage os (file i) = ltb (os.modified i + maxage) os.clock

-- What is called for each path; an error of Remove is logged.
clean_one : ℕ → Str × Entry → Act Os (Unit {0})
clean_one maxage (path, e) os =
    if str_eq (ext path) store_cache_file_ext && is_old maxage os e
    then quietly (remove path) os
    else (ok tt, os)

clean_all : ℕ → List (Str × Entry) → Act Os (Unit {0})
unfolding clean_one
clean_all maxage [] = return tt
clean_all maxage (x ∷ found) = do clean_one maxage x; clean_all maxage found

found_files : Outcome (List (Str × Entry)) → List (Str × Entry)
found_files (ok found) = found
found_files (fail e) = []

-- CleanupCacheFiles, which returns no error
unfoldable pub cleanup_cache_files : ℕ → Str → Act Os (Unit {0})
unfolding clean_all found_files
cleanup_cache_files maxage tmp_dir os =
    let (r, os') = walk tmp_dir os in clean_all maxage (found_files r) os'
