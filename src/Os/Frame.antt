-- ===== src/Os/Frame.antt =====
-- What a call leaves alone: the file at a path, with its inode, and the name of an open file.
use cloudstorage.Base.{
  ℕ, ◌≤◌, ◌<◌, ◌≡◌, refl, ap, ◌∙◌, ◌≢◌, inl, inr, some, arith, Str, str_eq_iff, Outcome, ok, fail,
  return, proceed, Outcome-cases,
}
use cloudstorage.Base.Dict
use cloudstorage.Os.{
  Os, file, Flags, truncating, open_file, opened, hand_out, write, put_bytes, close, copy,
  write_file,
}
use cloudstorage.Os.View.{text}

-- From one state to a later one: the path p, an inode j and the handle h.
pub record Frame (p : Str) (j h : ℕ) (a b : Os) : Type 0 where
  pub there : Dict.lookup p b.entries ≡ Dict.lookup p a.entries
  pub same : b.inodes j ≡ a.inodes j
  pub path : (b.handles h).path ≡ (a.handles h).path
  pub more_handles : a.next_handle ≤ b.next_handle
  pub more_inodes : a.next_inode ≤ b.next_inode

module _ {p : Str} {j h : ℕ} where
  pub Frame-refl : (a : Os) → Frame p j h a a
  Frame-refl a = record {
    there = refl;
    same = refl;
    path = refl;
    more_handles = omega arith;
    more_inodes = omega arith;
  }

  pub Frame-trans : {a b c : Os} → Frame p j h a b → Frame p j h b c → Frame p j h a c
  Frame-trans f g = record {
    there = g.there ∙ f.there;
    same = g.same ∙ f.same;
    path = g.path ∙ f.path;
    more_handles = omega arith;
    more_inodes = omega arith;
  }

  pub Frame-text :
      {a b : Os} → Frame p j h a b → Dict.lookup p a.entries ≡ some (file j) → text b p ≡ text a p
  unfolding text
  Frame-text f e = ground arith

  module _ (a : Os) where
    pub Frame-close : (k : ℕ) → Frame p j h a (close k a).1
    unfolding close
    Frame-close k = ground arith

    pub Frame-write :
        (k : ℕ) (bytes : Str) → (a.handles k).inode ≢ j → Frame p j h a (write k bytes a).1
    unfolding write put_bytes
    Frame-write k bytes ne = ground arith

    pub Frame-copy : (dst src : ℕ) → (a.handles dst).inode ≢ j → Frame p j h a (copy dst src a).1
    unfolding copy put_bytes
    Frame-copy dst src ne = ground arith

    pub Frame-open_file :
        (q : Str) (flags : Flags)
        → h < a.next_handle
        → j < a.next_inode
        → q ≢ p
        → Dict.lookup q a.entries ≢ some (file j)
        → Frame p j h a (open_file q flags a).1
    unfolding open_file opened hand_out
    Frame-open_file q flags lt lt' ne other =
        ground (arith, Dict.lookup-insert q p (file a.next_inode) a.entries, str_eq_iff q p)

-- The handle that a call to open a file gives out is not on the inode of another file.
pub open_file-inode :
    (j : ℕ) (a : Os) (q : Str) (flags : Flags) (k : ℕ)
    → j < a.next_inode
    → Dict.lookup q a.entries ≢ some (file j)
    → (open_file q flags a).0 ≡ ok k
    → ((open_file q flags a).1.handles k).inode ≢ j
unfolding open_file opened hand_out
open_file-inode j a q flags k lt other e = ground arith

pub proceed-return : (x : Outcome ℕ × Os) → (proceed (λ _. return {A = Unit {0}} tt) x).1 ≡ x.1
proceed-return (ok n, s) = refl
proceed-return (fail e, s) = refl

module _ {p : Str} {j h : ℕ} where
  -- Writing another file, whatever faults there are.
  pub Frame-write_file :
      (a : Os) (q bytes : Str)
      → h < a.next_handle
      → j < a.next_inode
      → q ≢ p
      → Dict.lookup q a.entries ≢ some (file j)
      → Frame p j h a (write_file q bytes a).1
  unfolding write_file
  Frame-write_file a q bytes lt lt' ne other =
      let first = Frame-open_file a q truncating lt lt' ne other in
      elim (Outcome-cases (open_file q truncating a)) [
        | inr (x, b, e) ↦ rw e (rw e at first)
        | inl (k, b, e) ↦
            let to_b : Frame p j h a b = rw e at first in
            let elsewhere : (b.handles k).inode ≢ j =
              rw e at (
                open_file-inode j a q truncating k lt' other
                  (ap (λ (x : Outcome ℕ × Os). x.0) e)) in
            let written = Frame-write {p = p} {h = h} b k bytes elsewhere in
            rw (e, proceed-return)
              (Frame-trans to_b (Frame-trans written (Frame-close (write k bytes b).1 k)))
      ]
