-- ===== src/Csbufio/Writing.antt =====
-- A buffered writer over a file implements a text that grows at its end, where no call on files
-- meets a fault.
use cloudstorage.Base.{
  ℕ, ◌≡◌, refl, sym, ap, ◌∙◌, some, List, [], ◌++◌, arith, Str, length, Outcome, ok, Act, return,
  ◌>>◌, proceed,
}
use mathlib.Core.List.{flatten, append-nil}
use cloudstorage.Os.{Os, write, close}
use cloudstorage.Os.View.{text}
use cloudstorage.Os.Fresh.{Fresh, Fresh-write}
use cloudstorage.Bufio
use cloudstorage.Bufio.{Writer, fresh_writer}
use cloudstorage.Bufio.Appending.{Stands, then-ok, flush-Leaves, write_all-Leaves, fresh-Stands}
use cloudstorage.Csbufio.{BufWriteCloser, new_writer, to_file, on_writer, write_all, close_writer}

abbrev pub State : Type 0
State = BufWriteCloser × Os

pub on_writer-ok :
    (m : (Str → Act Os (Unit {0})) → Act (Writer × Os) (Unit {0})) (h : ℕ) (v : Writer) (os : Os)
    (t : Writer × Os)
    → m (to_file h) (v, os) ≡ (ok tt, t)
    → on_writer m (record { handle = h; writer = v }, os)
      ≡ (ok tt, (record { handle = h; writer = t.0 }, t.1))
unfolding on_writer
on_writer-ok m h v os t e = rw e

-- Close flushes the buffer, and closes the file where the sink then has the whole text.
pub close_writer-flushes :
    (G : Str → Os → Type 0) (h : ℕ)
    (grows : (text bytes : Str) (os : Os)
      → G text os
      → (os' : Os) × (to_file h bytes os ≡ (ok tt, os')) × G (text ++ bytes) os')
    (v : Writer) (os : Os) (whole : Str)
    → Stands (to_file h) G grows whole v os
    → (w : BufWriteCloser) × (os' : Os) × (close_writer (record { handle = h; writer = v }, os)
        ≡ ((close h os').0, (w, (close h os').1)))
      × G whole os'
unfolding close_writer
close_writer-flushes G h grows v os whole s =
    let (t, emptied, s', none_kept) = flush-Leaves (to_file h) G grows v os whole s in
    let all : whole ≡ s'.written = s'.split ∙ rw (none_kept, append-nil) refl in
    (
      record { handle = h; writer = t.0 },
      t.1,
      rw (on_writer-ok Bufio.flush h v os t emptied) refl,
      rw (sym all) at s'.held,
    )

module _ (path : Str) where
  pub to_file-Fresh :
      (h : ℕ) (whole bytes : Str) (os : Os)
      → Fresh path h whole os
      → (os' : Os) × (to_file h bytes os ≡ (ok tt, os')) × Fresh path h (whole ++ bytes) os'
  to_file-Fresh h whole bytes os f =
      let (went, f') = Fresh-write path h whole bytes os f in
      let os' = (write h bytes os).1 in
      let wrote : write h bytes os ≡ (ok (length bytes), os') =
        ap (λ (r : Outcome ℕ). (r, os')) went in
      (os', ap (proceed (λ (n : ℕ). return tt)) wrote, f')

  abbrev Writes : ℕ → Str → Writer → Os → Type 0
  Writes h = Stands (to_file h) (Fresh path h) (to_file-Fresh h)

  pub close-calm :
      (h : ℕ) (whole : Str) (os : Os)
      → Fresh path h whole os
      → ((close h os).0 ≡ ok tt)
        × ((close h os).1.entries ≡ os.entries)
        × ((close h os).1.inodes ≡ os.inodes)
        × ((close h os).1.faults ≡ [])
  unfolding close
  close-calm h whole os f =
      (ground (arith, f.calm), ground arith, ground arith, ground (arith, f.calm))

  pub text-close_calm :
      (h : ℕ) (whole : Str) (os : Os)
      → Fresh path h whole os
      → text (close h os).1 path ≡ some whole
  unfolding text
  text-close_calm h whole os f =
      let c = close-calm h whole os f in rw (c.1, f.holds.0) (rw (c.2, f.holds.1) refl)

  -- Flush and the close of the file
  close_writer-Writes :
      (h : ℕ) (v : Writer) (os : Os) (whole : Str)
      → Writes h whole v os
      → (t : State) × (close_writer (record { handle = h; writer = v }, os) ≡ (ok tt, t))
        × (text t.1 path ≡ some whole)
        × (t.1.faults ≡ [])
  close_writer-Writes h v os whole s =
      let (w, os', closes, f) =
        close_writer-flushes (Fresh path h) h (to_file-Fresh h) v os whole s in
      let closed = close-calm h whole os' f in
      (
        (w, (close h os').1),
        closes ∙ ap (λ (r : Outcome (Unit {0})). (r, (w, (close h os').1))) closed.0,
        text-close_calm h whole os' f,
        closed.3,
      )

  -- Writes and a Close, on a new writer of an empty file, succeed, and the file has the bytes of all
  -- writes, one behind the other.
  pub close_writer-written :
      (chunks : List Str) (h : ℕ) (os : Os)
      → Fresh path h [] os
      → (t : State) × ((write_all chunks >> close_writer) (new_writer h, os) ≡ (ok tt, t))
        × (text t.1 path ≡ some (flatten chunks))
        × (t.1.faults ≡ [])
  unfolding write_all
  close_writer-written chunks h os f =
      let (t, wrote, s) =
        write_all-Leaves (to_file h) (Fresh path h) (to_file-Fresh h) chunks fresh_writer os []
          (fresh-Stands (to_file h) (Fresh path h) (to_file-Fresh h) [] os f) in
      let w : BufWriteCloser = record { handle = h; writer = t.0 } in
      let (u, closed, there, calm) = close_writer-Writes h t.0 t.1 (flatten chunks) s in
      (
        u,
        then-ok (write_all chunks) close_writer (new_writer h, os) (w, t.1) u
            (on_writer-ok (λ sink. Bufio.write_all sink chunks) h fresh_writer os t wrote) closed,
        there,
        calm,
      )
