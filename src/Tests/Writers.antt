-- ===== src/Tests/Writers.antt =====
-- A new file of the local store, what is written to it, and the life of an object.
use cloudstorage.Base.{
  ℕ, ◌≡◌, refl, true, false, Option, none, some, List, [], ◌∷◌, Str, lit, str_eq, Outcome, ok, ◌>>◌,
}
use mathlib.Core.List.{flatten}
use cloudstorage.Base.Dict
use cloudstorage.Base.Dict.{Dict}
use cloudstorage.Strings
use cloudstorage.Strings.Paths
use cloudstorage.FileHelper
use cloudstorage.Os
use cloudstorage.Os.{Os, Handle, directory, file, unread}
use cloudstorage.Os.View.{text}
use cloudstorage.Csbufio
use cloudstorage.Csbufio.{BufWriteCloser, write_all, close_writer}
use cloudstorage.Csbufio.Writing.{close_writer-written}
use cloudstorage.LocalFs.Object as LocalObject
use cloudstorage.LocalFs.Object.{read_write}
use cloudstorage.LocalFs.Object.Lifetime.{methods, IsConsistent, reaches-IsConsistent}
use cloudstorage.LocalFs.Store.{LocalStore, new_writer_with_context, new_reader}
use cloudstorage.LocalFs.Store.Roundtrip.{new_reader-new_writer}
use cloudstorage.Lifecycle.{Reaches, opens, writes, closes, here, there}

abbrev no_metadata : Option (Dict Str) → Str
no_metadata md = lit "{}"

abbrev empty_file : Handle
empty_file = record {
  path = lit "s/b";
  inode = 0;
  offset = 0;
  is_open = true;
  writes = true;
  appends = false;
}

-- The directory of a store with a file that is empty and open.
abbrev disk : Os
disk = record {
  entries = (lit "s", directory) ∷ (lit "s/b", file 0) ∷ [];
  inodes = λ i. [];
  modified = λ i. 0;
  clock = 1;
  next_inode = 1;
  handles = λ h. empty_file;
  next_handle = 1;
  faults = [];
}

abbrev pieces : List Str
pieces = lit "to" ∷ [] ∷ lit "day" ∷ []

close_writer-written_example :
    (t : BufWriteCloser × Os) × ((write_all pieces >> close_writer) (Csbufio.new_writer 0, disk)
      ≡ (ok tt, t))
    × (text t.1 (lit "s/b") ≡ some (flatten pieces))
    × (t.1.faults ≡ [])
close_writer-written_example = close_writer-written (lit "s/b") pieces 0 disk (record {
  calm = refl;
  holds = (unfold Dict.lookup in unfold str_eq in refl, refl);
  at_end = refl;
  is_open = refl;
  writes = refl;
  appends = refl;
})

abbrev store : LocalStore
store = record { storepath = lit "s"; path_cleaned = lit "s"; cachepath = lit "c"; id = lit "1" }

abbrev made : Outcome BufWriteCloser × Os
made = new_writer_with_context store no_metadata (lit "a") none true disk

made-ok : made ≡ (ok (Csbufio.new_writer 2), made.1)
unfolding new_writer_with_context FileHelper.ensure_dir Paths.dir Paths.clean Paths.path_join
    Strings.has_prefix Strings.split Strings.join str_eq Os.stat Dict.lookup Os.open_file Os.opened
    Os.hand_out Os.has_parent Dict.insert LocalObject.writemeta Os.write_file Os.write Os.put_bytes
    Os.close Os.splice
made-ok = refl

new_reader-new_writer_example :
    (t : BufWriteCloser × Os) × ((write_all pieces >> close_writer) (Csbufio.new_writer 2, made.1)
      ≡ (ok tt, t))
    × (h : ℕ) × ((new_reader store (lit "a") t.1).0 ≡ ok h)
    × (unread (new_reader store (lit "a") t.1).1 h ≡ flatten pieces)
new_reader-new_writer_example =
    new_reader-new_writer store (lit "a") no_metadata none true disk (Csbufio.new_writer 2) made.1
      pieces refl made-ok

abbrev closed_object : LocalObject.Object
closed_object = record {
  name = lit "b";
  updated = 0;
  metadata = none;
  storepath = lit "s/b";
  cachepath = lit "c/b";
  cachedcopy = none;
  readonly = false;
  opened = false;
}

abbrev was_open : LocalObject.Object × Os
was_open = (LocalObject.open_object read_write (closed_object, disk)).1

abbrev was_written : LocalObject.Object × Os
was_written = (LocalObject.write_object (lit "new") was_open).1

-- Open, Write and Close
abbrev a_life :
    Reaches
      (methods no_metadata)
      (closed_object, disk)
      (LocalObject.close_object no_metadata was_written).1
a_life =
    there (opens read_write (closed_object, disk))
      (there (writes (lit "new") was_open) (there (closes was_written) (here _)))

reaches-IsConsistent_example : IsConsistent (LocalObject.close_object no_metadata was_written).1
reaches-IsConsistent_example = reaches-IsConsistent no_metadata a_life refl
