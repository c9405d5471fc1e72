-- ===== src/Tests/Copies.antt =====
-- A copy and a move in the local store.
use cloudstorage.Base.{
  ◌≡◌, refl, false, Option, none, some, [], ◌∷◌, ◌++◌, arith, Str, lit, str_eq, str_eq_iff, Outcome,
  ok,
}
use cloudstorage.Base.Dict
use cloudstorage.Base.Dict.{Dict}
use cloudstorage.Strings
use cloudstorage.Strings.Paths
use cloudstorage.FileHelper
use cloudstorage.Os
use cloudstorage.Os.{Os, Handle, directory, file}
use cloudstorage.Os.Linked.{IsLinked}
use cloudstorage.Os.View.{text}
use cloudstorage.Csbufio
use cloudstorage.Csbufio.{BufWriteCloser}
use cloudstorage.Transfer.{copy, move}
use cloudstorage.LocalFs.Object as LocalObject
use cloudstorage.LocalFs.Object.{Object}
use cloudstorage.LocalFs.Store.{LocalStore, new_writer_with_context}
use cloudstorage.LocalFs.Transfers.{World, as_store}
use cloudstorage.LocalFs.Transfers.Copied.{copy-text}
use cloudstorage.LocalFs.Transfers.Moved.{move-text}

abbrev no_metadata : Option (Dict Str) → Str
no_metadata md = lit "{}"

abbrev no_file : Handle
no_file = record {
  path = [];
  inode = 0;
  offset = 0;
  is_open = false;
  writes = false;
  appends = false;
}

abbrev disk : Os
disk = record {
  entries = (lit "s", directory) ∷ (lit "s/b", file 0) ∷ [];
  inodes = λ i. lit "today";
  modified = λ i. 0;
  clock = 1;
  next_inode = 1;
  handles = λ h. no_file;
  next_handle = 0;
  faults = [];
}

disk-IsLinked : IsLinked disk
unfolding Dict.lookup
disk-IsLinked = record {
  alone = λ p q k e f. ground (
    arith,
    str_eq_iff (lit "s") p,
    str_eq_iff (lit "s") q,
    str_eq_iff (lit "s/b") p,
    str_eq_iff (lit "s/b") q,
  );
  known = λ p k e. ground (arith, str_eq_iff (lit "s") p, str_eq_iff (lit "s/b") p);
}

abbrev store : LocalStore
store = record { storepath = lit "s"; path_cleaned = lit "s"; cachepath = lit "c"; id = lit "1" }

abbrev object_of : Str → Object
object_of name = record {
  name = name;
  updated = 0;
  metadata = none;
  storepath = lit "s/" ++ name;
  cachepath = lit "c/" ++ name;
  cachedcopy = none;
  readonly = false;
  opened = false;
}

abbrev made : Outcome BufWriteCloser × Os
made = new_writer_with_context store no_metadata (lit "a") none false disk

made-ok : made ≡ (ok (Csbufio.new_writer 1), made.1)
unfolding new_writer_with_context FileHelper.ensure_dir Paths.dir Paths.clean Paths.path_join
    Strings.has_prefix Strings.split Strings.join str_eq Os.stat Dict.lookup Os.open_file Os.opened
    Os.hand_out Os.has_parent Dict.insert LocalObject.writemeta Os.write_file Os.write Os.put_bytes
    Os.close Os.splice
made-ok = refl

source-text : text disk (lit "s/b") ≡ some (lit "today")
unfolding text Dict.lookup str_eq
source-text = refl

copy-text_example :
    (v : World) × (copy
        (as_store store no_metadata)
        (object_of (lit "b"))
        (object_of (lit "a"))
        ((λ h. Csbufio.new_writer h), disk)
      ≡ (ok tt, v))
    × (text v.1 (lit "s/a") ≡ some (lit "today"))
    × (text v.1 (lit "s/b") ≡ some (lit "today"))
unfolding Paths.path_join Paths.clean Strings.has_prefix Strings.split Strings.join str_eq
copy-text_example =
    copy-text store no_metadata (object_of (lit "b")) (object_of (lit "a"))
      (λ h. Csbufio.new_writer h) disk made.1 (Csbufio.new_writer 1) (lit "today") disk-IsLinked
      refl source-text (λ e. ground arith) (λ e. ground arith) made-ok

move-text_example :
    let r =
      move
        (as_store store no_metadata)
        (object_of (lit "b"))
        (object_of (lit "a"))
        ((λ h. Csbufio.new_writer h), disk) in
    (text r.1.1 (lit "s/a") ≡ some (lit "today")) × (r.0 ≡ ok tt → text r.1.1 (lit "s/b") ≡ none)
unfolding Paths.path_join Paths.clean Strings.has_prefix Strings.split Strings.join str_eq
move-text_example =
    move-text store no_metadata (object_of (lit "b")) (object_of (lit "a"))
      (λ h. Csbufio.new_writer h) disk made.1 (Csbufio.new_writer 1) (lit "today") disk-IsLinked
      refl refl refl source-text (λ e. ground arith) (λ e. ground arith) (λ e. ground arith)
      (λ e. ground arith) made-ok
