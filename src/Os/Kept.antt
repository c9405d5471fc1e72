-- ===== src/Os/Kept.antt =====
-- A file that stays as it is while others are made and written, in a file system in which no file has
-- two names.
use cloudstorage.Base.{
  ℕ, ◌≡◌, refl, ap, ◌≢◌, inl, inr, ◌||◌, Option, none, some, List, [], ◌∷◌, ◌++◌, arith, Bool-cases,
  Option-cases, Str, lit, str_eq, str_eq_iff, io, message, Outcome, ok, fail, Act, Outcome-cases,
}
use cloudstorage.Base.Dict
use cloudstorage.Base.Dict.{Dict}
use cloudstorage.Os.{
  Os, Entry, directory, file, Flags, truncating, open_file, opened, hand_out, write, put_bytes,
  close, write_file, past_fault, next_fault, mkdirs, with_entries, mkdir_all,
}
use cloudstorage.Strings.{split}
use cloudstorage.Strings.Paths.{clean, slash}
use cloudstorage.Os.Linked.{IsLinked, IsLinked-open_file, IsLinked-same}
use cloudstorage.Os.Frame.{open_file-inode, proceed-return}

-- The file at a path has an inode and a text.
pub record Kept (p : Str) (j : ℕ) (whole : Str) (os : Os) : Type 0 where
  pub linked : IsLinked os
  pub there : Dict.lookup p os.entries ≡ some (file j)
  pub same : os.inodes j ≡ whole

-- The same files, where directories may have been made
abbrev pub SameFiles : Os → Os → Type 0
SameFiles a b =
    ((q : Str) (k : ℕ)
      → Dict.lookup q b.entries ≡ some (file k)
      → Dict.lookup q a.entries ≡ some (file k))
    × ((q : Str) (k : ℕ)
        → Dict.lookup q a.entries ≡ some (file k)
        → Dict.lookup q b.entries ≡ some (file k))
    × (b.inodes ≡ a.inodes)
    × (b.next_inode ≡ a.next_inode)

module _ (q : Str) (k : ℕ) where
  insert-file :
      (here : Str) (entries : Dict Entry)
      → Dict.lookup here entries ≡ none
      → (Dict.lookup q (Dict.insert here directory entries) ≡ some (file k)
          → Dict.lookup q entries ≡ some (file k))
        × (Dict.lookup q entries ≡ some (file k)
            → Dict.lookup q (Dict.insert here directory entries) ≡ some (file k))
  insert-file here entries free = (
    λ e. ground (arith, e, free, Dict.lookup-insert here q directory entries, str_eq_iff here q),
    λ e. ground (arith, e, free, Dict.lookup-insert here q directory entries, str_eq_iff here q),
  )

  mkdirs-file :
      (es : List Str) (above : Str) (a b : Dict Entry)
      → mkdirs es above a ≡ ok b
      → (Dict.lookup q b ≡ some (file k) → Dict.lookup q a ≡ some (file k))
        × (Dict.lookup q a ≡ some (file k) → Dict.lookup q b ≡ some (file k))
  unfolding mkdirs
  mkdirs-file [] above a b e = (λ f. cc, λ f. cc)
  mkdirs-file (d ∷ es) above a b e = elim (Bool-cases (str_eq d [] || str_eq d (lit "."))) [
    | inl known ↦ mkdirs-file es ((above ++ d) ++ slash ∷ []) a b (rw known at e)
    | inr new ↦ elim (Option-cases (Dict.lookup (above ++ d) a)) [
      | inr (directory, there) ↦
          mkdirs-file es ((above ++ d) ++ slash ∷ []) a b (rw (new, there) at e)
      | inr (file i, there) ↦
          absurd (let stuck : fail (message "not a directory") ≡ ok b = rw (new, there) at e in cc)
      | inl free ↦
          let later =
            mkdirs-file es ((above ++ d) ++ slash ∷ []) (Dict.insert (above ++ d) directory a) b
              (rw (new, free) at e) in
          let now = insert-file (above ++ d) a free in
          (λ f. now.0 (later.0 f), λ f. later.1 (now.1 f))
    ]
  ]

with_entries-SameFiles :
    (r : Outcome (Dict Entry)) (os : Os)
    → ((b : Dict Entry)
        → r ≡ ok b
        → (q : Str) (k : ℕ)
        → (Dict.lookup q b ≡ some (file k) → Dict.lookup q os.entries ≡ some (file k))
          × (Dict.lookup q os.entries ≡ some (file k) → Dict.lookup q b ≡ some (file k)))
    → SameFiles os (with_entries r os).1
with_entries-SameFiles (ok b) os h =
    (λ q k e. (h b refl q k).0 e, λ q k e. (h b refl q k).1 e, refl, refl)
with_entries-SameFiles (fail x) os h = (λ q k e. e, λ q k e. e, refl, refl)

unless_fault-SameFiles :
    (f : Option ℕ) (m : Act Os (Unit {0})) (os : Os)
    → SameFiles os (m (past_fault os)).1
    → SameFiles os
        (elim f as (λ x. Outcome (Unit {0}) × Os) [
          | none ↦ m (past_fault os)
          | some n ↦ (fail io, past_fault os)
        ]).1
unless_fault-SameFiles none m os h = h
unless_fault-SameFiles (some n) m os h = (λ q k e. e, λ q k e. e, refl, refl)

pub mkdir_all-SameFiles : (path : Str) (os : Os) → SameFiles os (mkdir_all path os).1
unfolding mkdir_all
mkdir_all-SameFiles path os =
    unless_fault-SameFiles (next_fault os)
      (λ os. with_entries (mkdirs (split (clean path) slash) [] os.entries) os) os
      (with_entries-SameFiles (mkdirs (split (clean path) slash) [] os.entries) (past_fault os)
        (λ b e q k. mkdirs-file q k (split (clean path) slash) [] os.entries b e))

module _ {p : Str} {j : ℕ} {whole : Str} where
  pub Kept-SameFiles : (a b : Os) → SameFiles a b → Kept p j whole a → Kept p j whole b
  Kept-SameFiles a b (back, on, inodes, next) k = record {
    linked = record {
      alone = λ p q k' e f. k.linked.alone p q k' (back p k' e) (back q k' f);
      known = λ p k' e. rw next (k.linked.known p k' (back p k' e));
    };
    there = on p j k.there;
    same = rw inodes k.same;
  }

  module _ (a : Os) (k : Kept p j whole a) (q : Str) (ne : q ≢ p) where
    pub elsewhere : Dict.lookup q a.entries ≢ some (file j)
    elsewhere e = ne (k.linked.alone q p j e k.there)

    pub Kept-open_file : (flags : Flags) → Kept p j whole (open_file q flags a).1
    unfolding open_file opened hand_out
    Kept-open_file flags = record {
      linked = IsLinked-open_file q a k.linked flags;
      there =
          ground
            (arith, k.there, Dict.lookup-insert q p (file a.next_inode) a.entries, str_eq_iff q p);
      same = ground (arith, k.same, elsewhere, k.linked.known p j k.there);
    }

  pub Kept-close : (h : ℕ) (a : Os) → Kept p j whole a → Kept p j whole (close h a).1
  unfolding close
  Kept-close h a k = record {
    linked = IsLinked-same a (close h a).1 (ground arith) (ground arith) k.linked;
    there = ground (arith, k.there);
    same = ground (arith, k.same);
  }

  pub Kept-write :
      (h : ℕ) (bytes : Str) (a : Os)
      → (a.handles h).inode ≢ j
      → Kept p j whole a
      → Kept p j whole (write h bytes a).1
  unfolding write put_bytes
  Kept-write h bytes a ne k = record {
    linked = IsLinked-same a (write h bytes a).1 (ground arith) (ground arith) k.linked;
    there = ground (arith, k.there);
    same = ground (arith, k.same);
  }

  pub Kept-write_file :
      (q bytes : Str) (a : Os) → q ≢ p → Kept p j whole a → Kept p j whole (write_file q bytes a).1
  unfolding write_file
  Kept-write_file q bytes a ne k =
      let k1 = Kept-open_file a k q ne truncating in
      elim (Outcome-cases (open_file q truncating a)) [
        | inr (x, b, e) ↦ rw e (rw e at k1)
        | inl (h, b, e) ↦
            let k2 : Kept p j whole b = rw e at k1 in
            let other : (b.handles h).inode ≢ j = rw e at (
              open_file-inode j a q truncating h (k.linked.known p j k.there) (elsewhere a k q ne)
                (ap (λ (x : Outcome ℕ × Os). x.0) e)) in
            rw (e, proceed-return)
              (Kept-close h (write h bytes b).1 (Kept-write h bytes b other k2))
      ]
