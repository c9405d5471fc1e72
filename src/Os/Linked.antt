-- ===== src/Os/Linked.antt =====
-- A file system in which no file has two names.
use cloudstorage.Base.{ℕ, ◌<◌, ◌≡◌, ◌≢◌, some, [], arith, Str, str_eq_iff, ok}
use cloudstorage.Base.Dict
use cloudstorage.Os.{
  Os, file, Flags, reading, truncating, open_file, opened, hand_out, copy, put_bytes,
}
use cloudstorage.Os.Calm.{splice-nil}

pub record IsLinked (os : Os) : Type 0 where
  pub alone :
      (p q : Str) (k : ℕ)
      → Dict.lookup p os.entries ≡ some (file k)
      → Dict.lookup q os.entries ≡ some (file k)
      → p ≡ q
  pub known : (p : Str) (k : ℕ) → Dict.lookup p os.entries ≡ some (file k) → k < os.next_inode

module _ (path : Str) (os : Os) (L : IsLinked os) where
  -- The file that is made has a new inode.
  pub IsLinked-open_file : (flags : Flags) → IsLinked (open_file path flags os).1
  unfolding open_file opened hand_out
  IsLinked-open_file flags = record {
    alone = λ p q k e f. ground (
      arith,
      L.alone p q k,
      L.known p k,
      L.known q k,
      Dict.lookup-insert path p (file os.next_inode) os.entries,
      Dict.lookup-insert path q (file os.next_inode) os.entries,
      str_eq_iff path p,
      str_eq_iff path q,
    );
    known = λ p k e. ground (
      arith,
      L.known p k,
      Dict.lookup-insert path p (file os.next_inode) os.entries,
      str_eq_iff path p,
    );
  }

pub IsLinked-same :
    (os os' : Os)
    → os'.entries ≡ os.entries
    → os'.next_inode ≡ os.next_inode
    → IsLinked os
    → IsLinked os'
IsLinked-same os os' e f L = record {
  alone = λ p q k a b. L.alone p q k (rw e at a) (rw e at b);
  known = λ p k a. rw f (L.known p k (rw e at a));
}

-- What a call that opens a file for reading leaves.
pub open_file-reading :
    (path : Str) (os : Os) (i h : ℕ)
    → Dict.lookup path os.entries ≡ some (file i)
    → (open_file path reading os).0 ≡ ok h
    → let os' = (open_file path reading os).1 in
      (os'.entries ≡ os.entries)
      × (os'.next_inode ≡ os.next_inode)
      × (os'.inodes i ≡ os.inodes i)
      × ((os'.handles h).inode ≡ i)
      × ((os'.handles h).offset ≡ 0)
      × (h < os'.next_handle)
unfolding open_file opened hand_out
open_file-reading path os i h e f =
    (ground arith, ground arith, ground arith, ground arith, ground arith, ground arith)

-- What a call that empties or makes a file leaves of the others.
pub open_file-truncating :
    (path : Str) (os : Os) (i h g : ℕ) (q : Str)
    → h < os.next_handle
    → i < os.next_inode
    → q ≢ path
    → Dict.lookup path os.entries ≢ some (file i)
    → (open_file path truncating os).0 ≡ ok g
    → let os' = (open_file path truncating os).1 in
      (Dict.lookup q os'.entries ≡ Dict.lookup q os.entries)
      × (os'.inodes i ≡ os.inodes i)
      × (os'.handles h ≡ os.handles h)
      × ((os'.handles g).offset ≡ 0)
      × (h < g)
      × (g < os'.next_handle)
unfolding open_file opened hand_out
open_file-truncating path os i h g q lt lt' ne other e = (
  ground (arith, Dict.lookup-insert path q (file os.next_inode) os.entries, str_eq_iff path q),
  ground arith,
  ground arith,
  ground arith,
  ground arith,
  ground arith,
)

-- A copy between two files.
pub copy-whole :
    (os : Os) (g h n : ℕ)
    → (os.handles h).offset ≡ 0
    → (os.handles g).offset ≡ 0
    → os.inodes (os.handles g).inode ≡ []
    → (os.handles g).inode ≢ (os.handles h).inode
    → (copy g h os).0 ≡ ok n
    → let os' = (copy g h os).1 in
      (os'.inodes (os.handles g).inode ≡ os.inodes (os.handles h).inode)
      × (os'.entries ≡ os.entries)
      × (os'.next_inode ≡ os.next_inode)
      × (os'.next_handle ≡ os.next_handle)
unfolding copy put_bytes
copy-whole os g h n a b c ne e = (
  ground (arith, splice-nil (os.inodes (os.handles h).inode)),
  ground arith,
  ground arith,
  ground arith,
)
