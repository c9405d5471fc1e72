-- ===== src/Os/View.antt =====
-- The text of the file at a path, and which calls leave it alone, whatever faults they meet.
use cloudstorage.Base.{ℕ, ◌≡◌, ◌≢◌, Option, none, some, arith, Str, str_eq_iff, str_eq_refl, ok}
use cloudstorage.Base.Dict
use cloudstorage.Base.Dict.{Dict}
use cloudstorage.Os.{Os, Entry, directory, file, stat, exists, close, remove, removed, sync}

abbrev at_entry : Os → Option Entry → Option Str
at_entry os none = none
at_entry os (some directory) = none
at_entry os (some (file i)) = some (os.inodes i)

unfoldable pub text : Os → Str → Option Str
text os path = at_entry os (Dict.lookup path os.entries)

module _ (os : Os) (p : Str) where
  pub text-stat : (q : Str) → text (stat q os).1 p ≡ text os p
  unfolding text stat
  text-stat q = ground arith

  pub text-exists : (q : Str) → text (exists q os).1 p ≡ text os p
  unfolding exists
  text-exists q = text-stat q

  pub text-close : (h : ℕ) → text (close h os).1 p ≡ text os p
  unfolding text close
  text-close h = ground arith

  pub text-sync : (h : ℕ) → text (sync h os).1 p ≡ text os p
  unfolding text sync
  text-sync h = ground arith

  pub text-remove : (q : Str) → q ≢ p → text (remove q os).1 p ≡ text os p
  unfolding text remove removed
  text-remove q ne = ground (arith, Dict.lookup-erase q p os.entries, str_eq_iff q p)

pub text-remove_ok : (os : Os) (q : Str) → (remove q os).0 ≡ ok tt → text (remove q os).1 q ≡ none
unfolding text remove removed
text-remove_ok os q e = ground (arith, Dict.lookup-erase q q os.entries, str_eq_refl q)

pub path-close : (os : Os) (h k : ℕ) → ((close h os).1.handles k).path ≡ (os.handles k).path
unfolding close
path-close os h k = ground arith
