-- ===== src/Sftp/Names.antt =====
-- The functions on names of sftp/store.go: Concat, ConcatSlash, filterFiles, and the order by time
-- of modification.
use cloudstorage.Base.{
  ℕ, Bool, not, ◌&&◌, ◌||◌, List, [], ◌∷◌, ◌++◌, Str, lit, str_eq, ltb, ◌==◌, if◌then◌else◌,
}
use cloudstorage.Strings.{has_prefix, has_suffix}
use cloudstorage.Strings.Paths.{slash}
use cloudstorage.Query.{str_ltb}

-- What the loop of Concat writes for the strings behind the first.
concat_rest : List Str → Str
concat_rest [] = []
concat_rest (s ∷ strs) =
    let rest = concat_rest strs in if str_eq s [] then rest else slash ∷ (s ++ rest)

-- Concat
unfoldable pub concat : List Str → Str
unfolding concat_rest
concat [] = []
concat (s ∷ strs) = s ++ concat_rest strs

-- ConcatSlash
unfoldable pub concat_slash : List Str → Str
concat_slash [] = []
concat_slash (s ∷ strs) =
    let rest = concat_slash strs in if has_suffix s (lit "/") then s ++ rest else s ++ slash ∷ rest

-- os.FileInfo; a time is the count of nanoseconds.
pub record FileInfo : Type 0 where
  pub name : Str
  pub is_dir : Bool
  pub mod_time : ℕ

-- ByModTime.Less of two entries
unfoldable pub mod_time_less : FileInfo → FileInfo → Bool
mod_time_less a b =
    if a.mod_time == b.mod_time then str_ltb b.name a.name else ltb a.mod_time b.mod_time

-- filterFiles
unfoldable pub filter_files : List FileInfo → Bool → Bool → Bool → List Str
filter_files [] dirs files hidden = []
filter_files (f ∷ fi) dirs files hidden =
    let rest = filter_files fi dirs files hidden in
    if f.is_dir && not dirs
    then rest
    else if not f.is_dir && not files
    then rest
    else if hidden || not (has_prefix f.name (lit "."))
    then f.name ∷ rest
    else rest
