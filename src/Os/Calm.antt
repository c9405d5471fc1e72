-- ===== src/Os/Calm.antt =====
-- Calls in a file system in which no call meets a fault.
use cloudstorage.Base.{
  ℕ, ◌≡◌, ◌≢◌, true, false, ◌&&◌, some, [], arith, Str, if◌then◌else◌, length, drop-nil, ok,
}
use mathlib.Core.List.{append-nil}
use cloudstorage.Base.Dict
use cloudstorage.Os.{
  Os, file, Flags, update, open_file, opened, hand_out, copy, put_bytes, splice, zeros,
}

abbrev pub calm : Os → Os
calm os = record os { faults = [] }

pub splice-nil : (bytes : Str) → splice 0 bytes [] ≡ bytes
unfolding splice zeros
splice-nil bytes = rw (drop-nil, append-nil)

-- A file that is there.
pub open_file-there :
    (path : Str) (flags : Flags) (os : Os) (i : ℕ)
    → Dict.lookup path os.entries ≡ some (file i)
    → (flags.create && flags.exclusive) ≡ false
    → open_file path flags (calm os)
      ≡ hand_out path i flags (
          if flags.truncate
          then record (calm os) {
            inodes = update os.inodes i [];
            modified = update os.modified i os.clock;
          }
          else calm os)
unfolding open_file opened
open_file-there path flags os i e f = rw (e, opened) (rw f)

-- A copy from the start of one open file to an empty one.
pub copy_all :
    (os : Os) (dst src i j : ℕ)
    → (os.handles dst).is_open ≡ true
    → (os.handles dst).writes ≡ true
    → (os.handles dst).appends ≡ false
    → (os.handles dst).offset ≡ 0
    → (os.handles dst).inode ≡ j
    → os.inodes j ≡ []
    → (os.handles src).is_open ≡ true
    → (os.handles src).offset ≡ 0
    → (os.handles src).inode ≡ i
    → dst ≢ src
    → ((copy dst src (calm os)).0 ≡ ok (length (os.inodes i)))
      × ((copy dst src (calm os)).1.inodes j ≡ os.inodes i)
      × ((copy dst src (calm os)).1.entries ≡ os.entries)
      × ((copy dst src (calm os)).1.next_handle ≡ os.next_handle)
      × ((copy dst src (calm os)).1.next_inode ≡ os.next_inode)
      × ((k : ℕ) → ((copy dst src (calm os)).1.handles k).path ≡ (os.handles k).path)
unfolding copy put_bytes
copy_all os dst src i j a b c d e f g h k ne = (
  ground arith,
  ground (arith, splice-nil (os.inodes i)),
  ground arith,
  ground arith,
  ground arith,
  λ l. ground arith,
)
