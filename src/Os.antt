-- ===== src/Os.antt =====
-- What the code uses of Go's `os`, `io` and `ioutil` on local files: a Unix file system with inodes,
-- the open files of the process, and the time, which stands still during a call of the library. Each call may fail for a reason outside of the process, as the
-- list of faults says: `some n` makes the next call fail, after n bytes where it moves bytes, and
-- `none`, or the end of the list, lets it pass. Paths are compared as they are spelled.
pub mod Beside
pub mod Kept
pub mod View
pub mod Calm
pub mod Holds
pub mod Fresh
pub mod Reading
pub mod Linked
pub mod Frame
pub mod Walk
use cloudstorage.Base.{
  ℕ, zero, suc, ◌+◌, ◌-◌, ◌*◌, ◌/◌, ◌%◌, ◌^◌, ◌≤◌, ◌<◌, ◌≡◌, refl, sym, ap, ◌∙◌, ◌≢◌, ◌↔◌, ◌⊎◌, inl,
  inr, Bool, true, false, not, ◌&&◌, ◌||◌, Option, none, some, List, [], ◌∷◌, ◌++◌, map, arith,
  Bool-cases, Option-cases, present, Str, String, lit, str_eq, str_eq_iff, str_eq_refl, ltb, leb,
  ◌==◌, ==_iff, if◌then◌else◌, length, take, drop, keep, All, get_elem?, length-append, length-drop,
  Err, object_not_found, object_exists, iterator_done, canceled, deadline_exceeded, not_exist,
  exist, file_closed, bad_handle, eof, io, message, Outcome, ok, fail, Act, return, throw, attempt,
  ◌>>=◌, ◌>>◌, proceed, proceed-eq-ok, Outcome-cases, deferring, quietly, describing, described,
  proceed-ok,
}
use cloudstorage.Base.Dict
use cloudstorage.Base.Dict.{Dict}
use cloudstorage.Strings.{split, join}
use cloudstorage.Strings.Paths.{slash, clean, dir}

pub data Entry : Type 0 where
  directory : Entry
  file : ℕ → Entry

-- *os.File
pub record Handle : Type 0 where
  pub path : Str
  pub inode : ℕ
  pub offset : ℕ
  pub is_open : Bool
  pub writes : Bool
  pub appends : Bool

-- `modified` is the time of the last write of an inode.
pub record Os : Type 0 where
  pub entries : Dict Entry
  pub inodes : ℕ → Str
  pub modified : ℕ → ℕ
  pub clock : ℕ
  pub next_inode : ℕ
  pub handles : ℕ → Handle
  pub next_handle : ℕ
  pub faults : List (Option ℕ)

-- The flags of OpenFile; a file is always open for reading.
pub record Flags : Type 0 where
  pub write : Bool
  pub create : Bool
  pub truncate : Bool
  pub exclusive : Bool
  pub append : Bool

-- O_RDONLY, O_RDWR, and O_RDWR with O_CREATE and O_TRUNC
abbrev pub reading : Flags
reading = record {
  write = false;
  create = false;
  truncate = false;
  exclusive = false;
  append = false;
}

abbrev pub updating : Flags
updating = record reading { write = true }

abbrev pub creating : Flags
creating = record updating { create = true }

abbrev pub truncating : Flags
truncating = record creating { truncate = true }

abbrev pub update {ℓ} : {A : Type ℓ} → (ℕ → A) → ℕ → A → ℕ → A
update f k v j = if k == j then v else f j

-- What the next call meets, and the state behind that.
abbrev pub next_fault : Os → Option ℕ
next_fault os = elim os.faults [ [] ↦ none | f ∷ fs ↦ f ]

abbrev pub past_fault : Os → Os
past_fault os = record os { faults = elim os.faults [ [] ↦ [] | f ∷ fs ↦ fs ] }

-- A call that moves no bytes.
abbrev pub unless_fault {ℓ} : {A : Type ℓ} → Act Os A → Act Os A
unless_fault m os = elim (next_fault os) [
  | none ↦ m (past_fault os)
  | some n ↦ (fail io, past_fault os)
]

abbrev found : Option Entry → Outcome Entry
found none = fail not_exist
found (some e) = ok e

-- os.Stat
unfoldable pub stat : Str → Act Os Entry
stat path = unless_fault (λ os. (found (Dict.lookup path os.entries), os))

abbrev seen : Outcome Entry → Bool
seen (fail not_exist) = false
seen _ = true

-- Exists of file_helper.go: any other error of Stat counts as being there.
unfoldable pub exists : Str → Act Os Bool
unfolding stat
exists path os = let (r, os') = stat path os in (ok (seen r), os')

-- os.MkdirAll makes the directories of a path, from the first; the elements "" and "." are there.
mkdirs : List Str → Str → Dict Entry → Outcome (Dict Entry)
mkdirs [] above entries = ok entries
mkdirs (e ∷ es) above entries =
    let here = above ++ e in
    let rest = mkdirs es (here ++ slash ∷ []) entries in
    let made = mkdirs es (here ++ slash ∷ []) (Dict.insert here directory entries) in
    if str_eq e [] || str_eq e (lit ".") then rest else elim (Dict.lookup here entries) [
      | none ↦ made
      | some x ↦ elim x [ directory ↦ rest | file i ↦ fail (message "not a directory") ]
    ]

abbrev with_entries : Outcome (Dict Entry) → Os → Outcome (Unit {0}) × Os
with_entries (ok entries) os = (ok tt, record os { entries = entries })
with_entries (fail e) os = (fail e, os)

unfoldable pub mkdir_all : Str → Act Os (Unit {0})
unfolding mkdirs
mkdir_all path =
    unless_fault (λ os. with_entries (mkdirs (split (clean path) slash) [] os.entries) os)

is_directory : Option Entry → Bool
is_directory (some directory) = true
is_directory _ = false

-- The directory that a new file goes to is there.
unfoldable pub has_parent : Str → Os → Bool
unfolding is_directory
has_parent path os =
    str_eq (dir path) (lit ".")
    || str_eq (dir path) (lit "/")
    || is_directory (Dict.lookup (dir path) os.entries)

-- A new handle on an inode.
unfoldable pub hand_out : Str → ℕ → Flags → Os → Outcome ℕ × Os
hand_out path i flags os = (
  ok os.next_handle,
  record os {
    handles = update os.handles os.next_handle (record {
      path = path;
      inode = i;
      offset = 0;
      is_open = true;
      writes = flags.write;
      appends = flags.append;
    });
    next_handle = os.next_handle + 1;
  },
)

unfoldable pub opened : Str → Flags → Option Entry → Os → Outcome ℕ × Os
unfolding hand_out
opened path flags (some directory) os = (fail (message "is a directory"), os)
opened path flags (some (file i)) os =
    if flags.create && flags.exclusive
    then (fail exist, os)
    else hand_out path i flags (
        if flags.truncate
        then record os { inodes = update os.inodes i []; modified = update os.modified i os.clock }
        else os)
opened path flags none os =
    if flags.create
    then (if has_parent path os
        then hand_out path os.next_inode flags (record os {
          entries = Dict.insert path (file os.next_inode) os.entries;
          inodes = update os.inodes os.next_inode [];
          modified = update os.modified os.next_inode os.clock;
          next_inode = os.next_inode + 1;
        })
        else (fail not_exist, os))
    else (fail not_exist, os)

-- os.OpenFile
unfoldable pub open_file : Str → Flags → Act Os ℕ
unfolding opened
open_file path flags = unless_fault (λ os. opened path flags (Dict.lookup path os.entries) os)

zeros : ℕ → Str
zeros zero = []
zeros (suc n) = 0 ∷ zeros n

-- Bytes written at an offset; a gap in front is filled with zeros.
unfoldable pub splice : ℕ → Str → Str → Str
unfolding zeros
splice at bytes text =
    take at (text ++ zeros (at - length text)) ++ (bytes ++ drop (at + length bytes) text)

-- Bytes that go through a handle, at its offset or, if it appends, at the end.
unfoldable pub put_bytes : ℕ → Str → Os → Os
unfolding splice
put_bytes h bytes os =
    let f = os.handles h in
    let text = os.inodes f.inode in
    let at = if f.appends then length text else f.offset in
    record os {
      inodes = update os.inodes f.inode (splice at bytes text);
      modified = update os.modified f.inode os.clock;
      handles = update os.handles h (record f { offset = at + length bytes });
    }

-- What is left to read behind the offset of a handle.
abbrev pub unread : Os → ℕ → Str
unread os h = drop (os.handles h).offset (os.inodes (os.handles h).inode)

abbrev pub advance : ℕ → ℕ → Os → Os
advance h n os = record os {
  handles = update os.handles h (record (os.handles h) { offset = (os.handles h).offset + n });
}

abbrev pub guarded {ℓ} : {A : Type ℓ} → ℕ → Act Os A → Act Os A
guarded h m os = if (os.handles h).is_open then m os else (fail file_closed, os)

abbrev pub writing {ℓ} : {A : Type ℓ} → ℕ → Act Os A → Act Os A
writing h m = guarded h λ os. if (os.handles h).writes then m os else (fail bad_handle, os)

-- File.Write
unfoldable pub write : ℕ → Str → Act Os ℕ
unfolding put_bytes
write h bytes = writing h λ os. elim (next_fault os) [
  | none ↦ (ok (length bytes), put_bytes h bytes (past_fault os))
  | some n ↦ (fail io, put_bytes h (take n bytes) (past_fault os))
]

-- File.Read into a buffer of some bytes
unfoldable pub read : ℕ → ℕ → Act Os Str
read h size = guarded h (
    unless_fault λ os.
      let bytes = take size (unread os h) in
      if length bytes == 0 then (fail eof, os) else (ok bytes, advance h (length bytes) os))

-- io.Copy
unfoldable pub copy : ℕ → ℕ → Act Os ℕ
unfolding put_bytes
copy dst src = writing dst (
    guarded src λ os.
      let text = unread os src in
      elim (next_fault os) [
        | none ↦ (ok (length text), put_bytes dst text (advance src (length text) (past_fault os)))
        | some n ↦ (
          fail io,
          put_bytes dst (take n text) (advance src (length (take n text)) (past_fault os)),
        )
      ])

-- File.Seek to the start
unfoldable pub seek_start : ℕ → Act Os (Unit {0})
seek_start h = guarded h (
    unless_fault λ os.
      (ok tt, record os { handles = update os.handles h (record (os.handles h) { offset = 0 }) }))

-- File.Sync
unfoldable pub sync : ℕ → Act Os (Unit {0})
sync h = guarded h (unless_fault (return tt))

abbrev pub shut : ℕ → Os → Os
shut h os = record os { handles = update os.handles h (record (os.handles h) { is_open = false }) }

-- File.Close: the handle is closed also where there is an error.
unfoldable pub close : ℕ → Act Os (Unit {0})
close h = guarded h λ os. unless_fault (return tt) (shut h os)

-- A directory that holds an entry
unfoldable pub has_child : Str → Dict Entry → Bool
has_child path [] = false
has_child path ((p, e) ∷ entries) = str_eq (dir p) path || has_child path entries

removed : Str → Option Entry → Os → Outcome (Unit {0}) × Os
removed path none os = (fail not_exist, os)
removed path (some (file i)) os = (ok tt, record os { entries = Dict.erase path os.entries })
removed path (some directory) os =
    if has_child path os.entries
    then (fail (message "directory not empty"), os)
    else (ok tt, record os { entries = Dict.erase path os.entries })

-- os.Remove
unfoldable pub remove : Str → Act Os (Unit {0})
unfolding removed
remove path = unless_fault (λ os. removed path (Dict.lookup path os.entries) os)

-- ioutil.WriteFile
unfoldable pub write_file : Str → Str → Act Os (Unit {0})
unfolding open_file write close
write_file path bytes = do
  h ← open_file path truncating
  deferring (close h) (do n ← write h bytes; return tt)

abbrev read_inode : Option Entry → Os → Outcome Str × Os
read_inode none os = (fail not_exist, os)
read_inode (some directory) os = (fail (message "is a directory"), os)
read_inode (some (file i)) os = (ok (os.inodes i), os)

-- ioutil.ReadFile, which leaves no handle open
unfoldable pub read_file : Str → Act Os Str
read_file path = unless_fault (λ os. read_inode (Dict.lookup path os.entries) os)

-- What a reader of the rest of a file gives, and the error that stops it.
unfoldable pub drain : ℕ → Act Os (Str × Option Err)
drain h os =
    if (os.handles h).is_open
    then elim (next_fault os) [
      | none ↦ (ok (unread os h, none), advance h (length (unread os h)) (past_fault os))
      | some n ↦ (
        ok (take n (unread os h), some io),
        advance h (length (take n (unread os h))) (past_fault os),
      )
    ]
    else (ok ([], some file_closed), os)
