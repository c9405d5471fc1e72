-- ===== src/FileHelper.antt =====
-- file_helper.go: content types, the path of the cached copy of an object, and directories. The
-- table of the package `mime` is a parameter.
pub mod Kept
pub mod Laws
pub mod Calm
use cloudstorage.Base.{
  ℕ, zero, suc, ◌+◌, ◌-◌, ◌*◌, ◌/◌, ◌%◌, ◌^◌, ◌≤◌, ◌<◌, ◌≡◌, refl, sym, ap, ◌∙◌, ◌≢◌, ◌↔◌, ◌⊎◌, inl,
  inr, Bool, true, false, not, ◌&&◌, ◌||◌, Option, none, some, List, [], ◌∷◌, ◌++◌, map, arith,
  Bool-cases, Option-cases, present, Str, String, lit, str_eq, str_eq_iff, str_eq_refl, ltb, leb,
  ◌==◌, ==_iff, if◌then◌else◌, length, take, drop, keep, All, get_elem?, length-append, length-drop,
  Err, object_not_found, object_exists, iterator_done, canceled, deadline_exceeded, not_exist,
  exist, file_closed, bad_handle, eof, io, message, Outcome, ok, fail, Act, return, throw, attempt,
  ◌>>=◌, ◌>>◌, proceed, proceed-eq-ok, Outcome-cases, deferring, quietly, describing, described,
  proceed-ok,
}
use cloudstorage.Base.Dict
use cloudstorage.Base.Dict.{Dict}
use cloudstorage.Strings.{replace_first}
use cloudstorage.Strings.Paths.{dir, base, ext, path_join}
use cloudstorage.Os.{Os, Entry, directory, file, stat, mkdir_all}

abbrev pub store_cache_file_ext : Str
store_cache_file_ext = lit ".cache"

abbrev pub content_type_key : Str
content_type_key = lit "content_type"

abbrev pub octet_stream : Str
octet_stream = lit "application/octet-stream"

module _ (type_by_extension : Str → Str) where
  -- ContentType
  unfoldable pub content_type : Str → Str
  content_type name =
      let found = type_by_extension (ext name) in if str_eq found [] then octet_stream else found

  -- EnsureContextType: the type, and the metadata with it.
  unfoldable pub ensure_context_type : Str → Dict Str → Str × Dict Str
  unfolding content_type
  ensure_context_type o md = elim (Dict.lookup content_type_key md) [
    | some ctype ↦ (ctype, md)
    | none ↦ (content_type o, Dict.insert content_type_key (content_type o) md)
  ]

-- CachePathObj
unfoldable pub cache_path_obj : Str → Str → Str → Str
cache_path_obj cachepath oname storeid =
    let obase = base oname in
    let extension = ext oname in
    let ext2 = extension ++ (b'.' ∷ (storeid ++ store_cache_file_ext)) in
    let obase2 =
      if str_eq extension [] then obase ++ ext2 else replace_first obase extension ext2 in
    path_join (cachepath ∷ dir oname ∷ obase2 ∷ [])

-- What EnsureDir does with the answer of Stat.
dir_checked : Str → Outcome Entry → Act Os (Unit {0})
dir_checked fdir (ok directory) = return tt
dir_checked fdir (ok (file i)) = throw (message "filename's dir exists but isn't' a directory")
dir_checked fdir (fail not_exist) = describing "unable to create path." (mkdir_all fdir)
dir_checked fdir (fail e) = return tt

-- EnsureDir
unfoldable pub ensure_dir : Str → Act Os (Unit {0})
unfolding dir_checked
ensure_dir filename =
    let fdir = dir filename in
    if not (str_eq fdir []) && not (str_eq fdir filename)
    then (do r ← attempt (stat fdir); dir_checked fdir r)
    else return tt
