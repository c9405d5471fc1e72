-- ===== src/FileHelper/Calm.antt =====
-- Directories that are made where no call meets a fault.
use cloudstorage.Base.{◌≡◌, [], arith, Str, Outcome}
use cloudstorage.Os.{Os, Entry, mkdir_all, stat}
use cloudstorage.Strings.Paths.{dir}
use cloudstorage.FileHelper.{dir_checked, ensure_dir}

module _ (path : Str) (os : Os) (calm : os.faults ≡ []) where
  pub faults-mkdir_all : (mkdir_all path os).1.faults ≡ []
  unfolding mkdir_all
  faults-mkdir_all = ground arith

  faults-stat : (stat path os).1.faults ≡ []
  unfolding stat
  faults-stat = ground arith

faults-dir_checked :
    (path : Str) (r : Outcome Entry) (os : Os)
    → os.faults ≡ []
    → (dir_checked path r os).1.faults ≡ []
unfolding dir_checked
faults-dir_checked path r os calm = ground (arith, faults-mkdir_all path os calm)

pub faults-ensure_dir : (path : Str) (os : Os) → os.faults ≡ [] → (ensure_dir path os).1.faults ≡ []
unfolding ensure_dir
faults-ensure_dir path os calm = ground (
  arith,
  faults-dir_checked (dir path) (stat (dir path) os).0 (stat (dir path) os).1
      (faults-stat (dir path) os calm),
)
