-- ===== src/Os/Holds.antt =====
-- A handle on the file at a path that has a text.
use cloudstorage.Base.{ℕ, ◌≡◌, Option, none, some, [], arith, Str, str_eq_refl, Err, Outcome, ok}
use cloudstorage.Base.Dict
use cloudstorage.Os.{
  Os, file, drain, truncating, open_file, opened, hand_out, write, put_bytes, seek_start,
}
use cloudstorage.Os.Calm.{splice-nil}

-- The handle is on the file at a path, and that file has a text.
abbrev pub Holds : Str → ℕ → Str → Os → Type 0
Holds path h text os =
    (Dict.lookup path os.entries ≡ some (file (os.handles h).inode))
    × (os.inodes (os.handles h).inode ≡ text)

pub offset-seek_start :
    (h : ℕ) (os : Os) (u : Unit {0})
    → (seek_start h os).0 ≡ ok u
    → ((seek_start h os).1.handles h).offset ≡ 0
unfolding seek_start
offset-seek_start h os u e = ground arith

module _ (path : Str) where
  pub Holds-seek_start :
      (h : ℕ) (text : Str) (os : Os) → Holds path h text os → Holds path h text (seek_start h os).1
  unfolding seek_start
  Holds-seek_start h text os st = (ground (arith, st.0), ground (arith, st.1))

  pub Holds-open_file :
      (h : ℕ) (os : Os)
      → (open_file path truncating os).0 ≡ ok h
      → Holds path h [] (open_file path truncating os).1
  unfolding open_file opened hand_out
  Holds-open_file h os e = (
    ground (arith, Dict.lookup-insert path path (file os.next_inode) os.entries, str_eq_refl path),
    ground arith,
  )

  pub Holds-write :
      (h n : ℕ) (bytes : Str) (os : Os)
      → Holds path h [] os
      → (os.handles h).offset ≡ 0
      → (write h bytes os).0 ≡ ok n
      → Holds path h bytes (write h bytes os).1
  unfolding write put_bytes
  Holds-write h n bytes os st z e = (ground (arith, st.0), ground (arith, st.1, splice-nil bytes))

-- What was read, where no error stopped it, is the text.
abbrev pub Whole : Str → Outcome (Str × Option Err) → Type 0
Whole text (ok (t, none)) = t ≡ text
Whole text _ = Unit

-- The rest of a file, from its start
pub drain-Whole :
    (h : ℕ) (os : Os)
    → (os.handles h).offset ≡ 0
    → Whole (os.inodes (os.handles h).inode) (drain h os).0
unfolding drain
drain-Whole h os z = ground arith
