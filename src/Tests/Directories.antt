-- ===== src/Tests/Directories.antt =====
-- The directories that ensureDir makes on a server that is the list of its directories, with a file.
use cloudstorage.Base.{
  ◌≡◌, refl, Bool, true, false, ◌||◌, List, [], ◌∷◌, arith, Str, lit, str_eq, str_eq_refl,
  not_exist, exist, io, Outcome, ok, fail,
}
use cloudstorage.Base.Dict
use cloudstorage.Base.Dict.{Dict}
use cloudstorage.Strings
use cloudstorage.Sftp.Names
use cloudstorage.Sftp.Names.{FileInfo}
use cloudstorage.Sftp.Client.{Ftp, Client}
use cloudstorage.Sftp.Client.Dirs.{HasDirs}

has : List Str → Str → Bool
has [] d = false
has (e ∷ dirs) d = str_eq e d || has dirs d

abbrev is_file : Str → Bool
is_file d = str_eq (lit "f") d

info : Str → Bool → Bool → Outcome FileInfo
info d true file = ok (record { name = d; is_dir = true; mod_time = 0 })
info d false true = ok (record { name = d; is_dir = false; mod_time = 0 })
info d false false = fail not_exist

make : Str → Bool → List Str → Outcome (Unit {0}) × List Str
make d true s = (fail exist, s)
make d false s = (ok tt, d ∷ s)

make-keeps :
    (d e : Str) (taken : Bool) (s : List Str) → has s e ≡ true → has (make d taken s).1 e ≡ true
unfolding make has
make-keeps d e true s there = there
make-keeps d e false s there = ground (arith, there)

make-makes :
    (d : Str) (taken : Bool) (s : List Str)
    → (make d taken s).0 ≡ ok tt
    → has (make d taken s).1 d ≡ true
unfolding make has
make-makes d true s e = cc
make-makes d false s e = rw (str_eq_refl d) refl

abbrev ftp : Ftp (List Str)
ftp = record {
  stat = λ d s. (info d (has s d) (is_file d), s);
  mkdir = λ d s. make d (has s d || is_file d) s;
  remove = λ d s. (fail io, s);
  read_dir = λ d s. (fail io, s);
  open_file = λ d s. (fail io, s);
  create = λ d s. (fail io, s);
  read_all = λ f s. (fail io, s);
  read_from = λ f bytes s. (fail io, s);
  close = λ f s. (ok tt, s);
}

ftp-HasDirs : HasDirs ftp
ftp-HasDirs = record {
  is_dir = has;
  is_file = λ s. is_file;
  stat_files = λ d s. refl;
  mkdir_files = λ d s. refl;
  stat_keeps = λ d s. refl;
  mkdir_keeps = λ d e s. make-keeps d e (has s d || is_file d) s;
  mkdir_makes = λ d s. make-makes d (has s d || is_file d) s;
}

abbrev home : Client
home = record { id = lit "1"; cachepath = lit "c"; bucket = lit "B" }

abbrev known : Dict (Unit {0}) × List Str
known = ([], lit "b" ∷ [])
