-- ===== src/Cached/Calm.antt =====
-- The cached copy of an Open in which no call on files meets a fault.
use cloudstorage.Base.{
  ℕ, ◌≡◌, ap, Bool, true, false, [], arith, Str, Outcome, ok, Act, ◌>>=◌, proceed-eq-ok, describing,
  described-eq-ok,
}
use cloudstorage.Strings.Paths.{dir}
use cloudstorage.Os.{Os, truncating, open_file, opened, hand_out, seek_start, close, mkdir_all}
use cloudstorage.Os.Holds.{Holds}
use cloudstorage.Os.Fresh.{Fresh, Fresh-open_file}
use cloudstorage.FileHelper.{ensure_dir}
use cloudstorage.FileHelper.Calm.{faults-mkdir_all, faults-ensure_dir}
use cloudstorage.Cached.{hand_copy, create_copy}

pub create_copy-Fresh :
    (path : Str) (os : Os) (h : ℕ) (os' : Os)
    → os.faults ≡ []
    → create_copy path os ≡ (ok h, os')
    → Fresh path h [] os'
unfolding create_copy
create_copy-Fresh path os h os' calm e =
    let create : Unit {0} → Act Os ℕ =
      λ u. describing "error occurred creating file." (open_file path truncating) in
    let ensure = describing "error occurred creating cachedcopy's dir." (ensure_dir path) in
    let made_dirs = describing "error occurred creating cachedcopy dir." (mkdir_all (dir path)) in
    let (u, os1, e1, f1) = proceed-eq-ok (λ (u : Unit {0}). ensure >>= create) (made_dirs os) e in
    let (v, os2, e2, f2) = proceed-eq-ok create (ensure os1) f1 in
    let dirs =
      described-eq-ok "error occurred creating cachedcopy dir." (mkdir_all (dir path) os) u os1
        e1 in
    let ensured =
      described-eq-ok "error occurred creating cachedcopy's dir." (ensure_dir path os1) v os2 e2 in
    let made =
      described-eq-ok "error occurred creating file." (open_file path truncating os2) h os' f2 in
    let calm1 : os1.faults ≡ [] = rw dirs at (faults-mkdir_all (dir path) os calm) in
    let calm2 : os2.faults ≡ [] = rw ensured at (faults-ensure_dir path os1 calm1) in
    rw made at (Fresh-open_file path h false os2 calm2 (ap (λ (x : Outcome ℕ × Os). x.0) made))

pub hand_copy-calm :
    (path : Str) (h : ℕ) (text : Str) (readonly : Bool) (os : Os)
    → Fresh path h text os
    → (k : ℕ) × ((hand_copy readonly h path os).0 ≡ ok k)
      × Holds path k text (hand_copy readonly h path os).1
      × (((hand_copy readonly h path os).1.handles k).offset ≡ 0)
unfolding hand_copy seek_start close open_file opened hand_out
hand_copy-calm path h text false os f = (
  h,
  ground (arith, f.calm),
  (ground (arith, f.holds.0), ground (arith, f.holds.1)),
  ground arith,
)
hand_copy-calm path h text true os f = (
  os.next_handle,
  ground (arith, f.calm, f.holds.0),
  (ground (arith, f.holds.0), ground (arith, f.holds.1, f.holds.0)),
  ground (arith, f.holds.0),
)
