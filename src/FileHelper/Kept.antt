-- ===== src/FileHelper/Kept.antt =====
-- EnsureDir leaves the files as they are, whatever faults it meets.
use cloudstorage.Base.{
  ℕ, ◌≡◌, refl, inl, inr, not, ◌&&◌, [], arith, Bool-cases, Str, String, str_eq, not_exist, Outcome,
  ok, fail, described,
}
use cloudstorage.Os.{Os, Entry, directory, file, mkdir_all, stat}
use cloudstorage.Os.Kept.{Kept, mkdir_all-SameFiles, Kept-SameFiles}
use cloudstorage.Strings.Paths.{dir}
use cloudstorage.FileHelper.{dir_checked, ensure_dir}

described_state : (text : String) (x : Outcome (Unit {0}) × Os) → (described text x).1 ≡ x.1
described_state text (ok u, s) = refl
described_state text (fail e, s) = refl

module _ {p : Str} {j : ℕ} {whole : Str} where
  Kept-stat : (path : Str) (os : Os) → Kept p j whole os → Kept p j whole (stat path os).1
  unfolding stat
  Kept-stat path os k =
      Kept-SameFiles os (stat path os).1 (ground arith, ground arith, ground arith, ground arith) k

  Kept-dir_checked :
      (path : Str) (r : Outcome Entry) (os : Os)
      → Kept p j whole os
      → Kept p j whole (dir_checked path r os).1
  unfolding dir_checked
  Kept-dir_checked path (ok directory) os k = k
  Kept-dir_checked path (ok (file i)) os k = k
  Kept-dir_checked path (fail not_exist) os k =
      rw (described_state "unable to create path." (mkdir_all path os))
        (Kept-SameFiles os (mkdir_all path os).1 (mkdir_all-SameFiles path os) k)
  Kept-dir_checked path (fail e) os k = k

  pub Kept-ensure_dir :
      (path : Str) (os : Os) → Kept p j whole os → Kept p j whole (ensure_dir path os).1
  unfolding ensure_dir
  Kept-ensure_dir path os k =
      elim (Bool-cases (not (str_eq (dir path) []) && not (str_eq (dir path) path))) [
        | inl away ↦ rw away (
            Kept-dir_checked (dir path) (stat (dir path) os).0 (stat (dir path) os).1
              (Kept-stat (dir path) os k))
        | inr here ↦ rw here k
      ]
