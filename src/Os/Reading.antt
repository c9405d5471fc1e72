-- ===== src/Os/Reading.antt =====
-- What calls that read leave of the file behind a handle, and what they give.
use cloudstorage.Base.{ℕ, ◌≡◌, some, arith, Str, ok}
use cloudstorage.Base.Dict
use cloudstorage.Os.{Os, file, updating, open_file, opened, hand_out, seek_start, drain}
use cloudstorage.Os.Holds.{Whole}

pub drain-seek_start :
    (h : ℕ) (os : Os) (u : Unit {0})
    → (seek_start h os).0 ≡ ok u
    → Whole (os.inodes (os.handles h).inode) (drain h (seek_start h os).1).0
unfolding seek_start drain
drain-seek_start h os u f = ground arith

pub inode-seek_start :
    (h : ℕ) (os : Os)
    → (seek_start h os).1.inodes ((seek_start h os).1.handles h).inode
      ≡ os.inodes (os.handles h).inode
unfolding seek_start
inode-seek_start h os = ground arith

pub inode-drain :
    (h : ℕ) (os : Os)
    → (drain h os).1.inodes ((drain h os).1.handles h).inode ≡ os.inodes (os.handles h).inode
unfolding drain
inode-drain h os = ground arith

pub inode-open_file :
    (path : Str) (os : Os) (i h : ℕ)
    → Dict.lookup path os.entries ≡ some (file i)
    → (open_file path updating os).0 ≡ ok h
    → (open_file path updating os).1.inodes ((open_file path updating os).1.handles h).inode
      ≡ os.inodes i
unfolding open_file opened hand_out
inode-open_file path os i h there e = ground arith
