-- ===== src/Sftp/Client/Dirs.antt =====
-- The directories that ensureDir of sftp/store.go leaves on the server.
use cloudstorage.Base.{
  ◌≡◌, ◌⊎◌, Bool, true, false, none, some, List, [], ◌∷◌, ◌++◌, Str, str_eq, if◌then◌else◌,
  not_exist, fail, ok,
}
use cloudstorage.Base.Dict
use cloudstorage.Base.Dict.{Dict}
use cloudstorage.Strings.Paths.{slash}
use cloudstorage.Sftp.Client.{Ftp, Client, know_dir}

-- A path below a directory, or at the top
abbrev pub under : Str → Str → Str
under above x = if str_eq above [] then x else above ++ slash ∷ x

-- The documented behaviour of a server with its directories and its other files: Stat changes nothing,
-- and Mkdir makes a directory where it succeeds, and neither takes away a directory nor makes a file.
pub record HasDirs {F : Type 0} (ftp : Ftp F) : Type 0 where
  pub is_dir : F → Str → Bool
  pub is_file : F → Str → Bool
  pub stat_keeps : (d : Str) (s : F) → is_dir (ftp.stat d s).1 ≡ is_dir s
  pub stat_files : (d : Str) (s : F) → is_file (ftp.stat d s).1 ≡ is_file s
  pub mkdir_keeps : (d e : Str) (s : F) → is_dir s e ≡ true → is_dir (ftp.mkdir d s).1 e ≡ true
  pub mkdir_files : (d : Str) (s : F) → is_file (ftp.mkdir d s).1 ≡ is_file s
  pub mkdir_makes :
      (d : Str) (s : F) → (ftp.mkdir d s).0 ≡ ok tt → is_dir (ftp.mkdir d s).1 d ≡ true

-- The server does what the client asks for: Stat says that a path is missing where there is nothing,
-- and Mkdir succeeds there, below a directory or at the top.
pub record Serves {F : Type 0} {ftp : Ftp F} (L : HasDirs ftp) : Type 0 where
  pub stat_missing :
      (d : Str) (s : F)
      → L.is_dir s d ≡ false
      → L.is_file s d ≡ false
      → (ftp.stat d s).0 ≡ fail not_exist
  pub mkdir_ok :
      (above part : Str) (s : F)
      → (above ≡ []) ⊎ (L.is_dir s above ≡ true)
      → L.is_dir s (under above part) ≡ false
      → L.is_file s (under above part) ≡ false
      → (ftp.mkdir (under above part) s).0 ≡ ok tt

module _ {F : Type 0} (m : Client) (ftp : Ftp F) (L : HasDirs ftp) (A : Serves L) where
  -- What the client knows to be there is there.
  abbrev pub Knows : Dict (Unit {0}) × F → Type 0
  Knows (paths, s) = (d : Str) (u : Unit {0}) → Dict.lookup d paths ≡ some u → L.is_dir s d ≡ true

  -- No directory goes away.
  abbrev pub Grows : F → F → Type 0
  Grows a b = (d : Str) → L.is_dir a d ≡ true → L.is_dir b d ≡ true

  -- A directory that is known, or made and known from then on
  entered : Str → Dict (Unit {0}) × F → Dict (Unit {0}) × F
  entered dir s = elim (Dict.lookup dir s.0) [ some u ↦ s | none ↦ know_dir m ftp dir s ]
