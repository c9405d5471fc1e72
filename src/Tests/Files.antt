-- ===== src/Tests/Files.antt =====
-- A store's file that is open for reading and for writing.
use cloudstorage.Base.{
  ◌≡◌, refl, Bool, true, false, Option, none, some, [], ◌∷◌, arith, Str, lit, str_eq, str_eq_iff,
  ◌==◌, if◌then◌else◌, Outcome, ok,
}
use cloudstorage.Base.Dict
use cloudstorage.Base.Dict.{Dict}
use cloudstorage.Strings
use cloudstorage.Strings.Paths
use cloudstorage.Os
use cloudstorage.Os.{Os, Handle, directory, file}
use cloudstorage.Os.View.{text}
use cloudstorage.Os.Linked.{IsLinked}
use cloudstorage.LocalFs.Object.{Object, close_object, sync_object}
use cloudstorage.LocalFs.Object.Syncing.{sync_object-copied}
use cloudstorage.LocalFs.Object.Closing.{close_object_idem, close_object-readonly}

abbrev no_metadata : Option (Dict Str) → Str
no_metadata md = lit "{}"

abbrev on_copy : Handle
on_copy = record {
  path = lit "c/a";
  inode = 1;
  offset = 0;
  is_open = true;
  writes = true;
  appends = false;
}

-- The file s/a is inode 0, its copy c/a is inode 1, and the first call that fails is the second.
abbrev disk : Os
disk = record {
  entries =
      (lit "s", directory) ∷ (lit "c", directory) ∷ (lit "s/a", file 0) ∷ (lit "c/a", file 1) ∷ [];
  inodes = λ i. if i == 0 then lit "old" else lit "new";
  modified = λ i. 0;
  clock = 1;
  next_inode = 2;
  handles = λ h. on_copy;
  next_handle = 1;
  faults = none ∷ some 0 ∷ [];
}

abbrev object_for : Bool → Object
object_for readonly = record {
  name = lit "a";
  updated = 0;
  metadata = none;
  storepath = lit "s/a";
  cachepath = lit "c/a";
  cachedcopy = some 0;
  readonly = readonly;
  opened = true;
}

close_object_idem_example :
    ((close_object no_metadata (object_for false, disk)).1.0.opened ≡ false)
    × (close_object no_metadata (close_object no_metadata (object_for false, disk)).1
        ≡ (ok tt, (close_object no_metadata (object_for false, disk)).1))
close_object_idem_example = close_object_idem no_metadata (object_for false, disk)

close_object-readonly_example :
    text (close_object no_metadata (object_for true, disk)).1.1 (lit "s/a") ≡ text disk (lit "s/a")
close_object-readonly_example =
    close_object-readonly no_metadata (object_for true) disk (lit "s/a") refl
      (λ h e same. ground (arith, same))

-- The same, where no call fails.
abbrev fair_disk : Os
fair_disk = record disk { faults = [] }

fair_disk-IsLinked : IsLinked fair_disk
unfolding Dict.lookup
fair_disk-IsLinked = record {
  alone = λ p q k e f. ground (
    arith,
    str_eq_iff (lit "s") p,
    str_eq_iff (lit "c") p,
    str_eq_iff (lit "s/a") p,
    str_eq_iff (lit "c/a") p,
    str_eq_iff (lit "s") q,
    str_eq_iff (lit "c") q,
    str_eq_iff (lit "s/a") q,
    str_eq_iff (lit "c/a") q,
  );
  known = λ p k e. ground (arith, e);
}

abbrev synced : Outcome (Unit {0}) × (Object × Os)
synced = sync_object no_metadata (object_for false, fair_disk)

synced-ok : synced ≡ (ok tt, synced.1)
unfolding sync_object Dict.lookup str_eq Os.copy Os.has_parent Paths.dir Paths.clean
    Strings.has_prefix Strings.join Strings.split
synced-ok = refl

sync_object-copied_example : text synced.1.1 (lit "s/a") ≡ some (lit "new")
sync_object-copied_example =
    sync_object-copied no_metadata (object_for false) fair_disk 1 synced.1 fair_disk-IsLinked
      (unfold Dict.lookup in unfold str_eq in refl) (λ same. ground (arith, same)) synced-ok
