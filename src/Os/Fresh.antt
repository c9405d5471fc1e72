-- ===== src/Os/Fresh.antt =====
-- A file that is being written through a handle at its end, where no call meets a fault.
use cloudstorage.Base.{
  ℕ, zero, suc, ◌+◌, ◌-◌, ◌≤◌, ◌≡◌, refl, ap, Bool, true, false, [], ◌∷◌, ◌++◌, arith, Str,
  str_eq_refl, length, take, drop, length-append, ok,
}
use mathlib.Core.List.{append-nil}
use cloudstorage.Base.Dict
use cloudstorage.Os.{
  Os, file, truncating, open_file, opened, hand_out, write, put_bytes, splice, zeros, seek_start,
}
use cloudstorage.Os.Holds.{Holds}

-- The handle is open for writing, and stands behind the text of the file at a path.
pub record Fresh (path : Str) (h : ℕ) (text : Str) (os : Os) : Type 0 where
  pub calm : os.faults ≡ []
  pub holds : Holds path h text os
  pub at_end : (os.handles h).offset ≡ length text
  pub is_open : (os.handles h).is_open ≡ true
  pub writes : (os.handles h).writes ≡ true
  pub appends : (os.handles h).appends ≡ false

take-length-append : (text more : Str) → take (length text) (text ++ more) ≡ text
take-length-append [] more = refl
take-length-append (c ∷ text) more = ap (λ t. c ∷ t) (take-length-append text more)

drop-past : (n : ℕ) (text : Str) → length text ≤ n → drop n text ≡ []
drop-past zero [] h = refl
drop-past (suc n) [] h = refl
drop-past zero (c ∷ text) h = absurd (omega arith)
drop-past (suc n) (c ∷ text) h = drop-past n text (omega arith)

splice-end : (text bytes : Str) → splice (length text) bytes text ≡ text ++ bytes
unfolding splice
splice-end text bytes =
    rw
      (
        take-length-append text (zeros (length text - length text)),
        drop-past (length text + length bytes) text (omega arith),
        append-nil,
      )
      refl

module _ (path : Str) (h : ℕ) where
  pub Fresh-open_file :
      (exclusive : Bool) (os : Os)
      → os.faults ≡ []
      → (open_file path (record truncating { exclusive = exclusive }) os).0 ≡ ok h
      → Fresh path h [] (open_file path (record truncating { exclusive = exclusive }) os).1
  unfolding open_file opened hand_out
  Fresh-open_file exclusive os calm e = record {
    calm = ground arith;
    holds = (
      ground
          (arith, Dict.lookup-insert path path (file os.next_inode) os.entries, str_eq_refl path),
      ground arith,
    );
    at_end = ground arith;
    is_open = ground arith;
    writes = ground arith;
    appends = ground arith;
  }

  pub Fresh-seek_start :
      (os : Os)
      → Fresh path h [] os
      → ((seek_start h os).0 ≡ ok tt) × Fresh path h [] (seek_start h os).1
  unfolding seek_start
  Fresh-seek_start os f = (
    ground (arith, f.calm),
    record {
      calm = ground arith;
      holds = (ground (arith, f.holds.0), ground (arith, f.holds.1));
      at_end = ground arith;
      is_open = ground arith;
      writes = ground arith;
      appends = ground arith;
    },
  )

  pub Fresh-write :
      (text bytes : Str) (os : Os)
      → Fresh path h text os
      → ((write h bytes os).0 ≡ ok (length bytes))
        × Fresh path h (text ++ bytes) (write h bytes os).1
  unfolding write put_bytes
  Fresh-write text bytes os f = (
    ground (arith, f.calm),
    record {
      calm = ground arith;
      holds = (ground (arith, f.holds.0), ground (arith, f.holds.1, splice-end text bytes));
      at_end = ground (arith, length-append text bytes);
      is_open = ground arith;
      writes = ground arith;
      appends = ground arith;
    },
  )
