-- ===== src/LocalFs/Transfers/Copied.antt =====
-- What Copy of store.go leaves in the local store.
use cloudstorage.Base.{
  ℕ, ◌<◌, ◌≡◌, refl, ap, ◌∙◌, ◌≢◌, true, false, Option, none, some, [], ◌++◌, arith, Str, lit,
  length, Err, Outcome, ok, Act, return, proceed,
}
use cloudstorage.Base.Dict.{Dict}
use cloudstorage.Os.{
  Os, Flags, update, truncating, reading, open_file, opened, hand_out, write, write_file, drain,
  close,
}
use cloudstorage.Os.View.{text}
use cloudstorage.Os.Linked.{IsLinked}
use cloudstorage.Os.Frame.{open_file-inode}
use cloudstorage.Os.Fresh.{Fresh-write}
use cloudstorage.Os.Kept.{Kept, elsewhere, Kept-open_file, Kept-write_file, Kept-close}
use cloudstorage.Os.Beside.{
  Apart, open_file-Kept, Apart-open_file, Apart-write, Apart-drain, Apart-close, drain-reads,
  write-is_open, close-open,
}
use cloudstorage.FileHelper.{ensure_dir}
use cloudstorage.FileHelper.Kept.{Kept-ensure_dir}
use cloudstorage.Bufio
use cloudstorage.Bufio.{fresh_writer}
use cloudstorage.Bufio.Appending.{Stands, write_buffered-Leaves, fresh-Stands}
use cloudstorage.Csbufio.{BufWriteCloser, new_writer, to_file, on_writer, close_writer}
use cloudstorage.Csbufio.Writing.{on_writer-ok, close_writer-flushes, close-calm, text-close_calm}
use cloudstorage.Transfer.{copy}
use cloudstorage.Transfer.Running.{copy-runs}
use cloudstorage.LocalFs.Object.{Object, kept_metadata}
use cloudstorage.LocalFs.Store.{LocalStore, store_file, new_writer_with_context, new_reader}
use cloudstorage.LocalFs.Store.Roundtrip.{
  new_writer-steps, new_writer-Fresh, new_reader-opens, there-cases,
}
use cloudstorage.LocalFs.Transfers.{World, writer_kept, with_writer, new_writer_at, as_store}

open_file-below :
    (q : Str) (flags : Flags) (os : Os) (h : ℕ)
    → (open_file q flags os).0 ≡ ok h
    → h < (open_file q flags os).1.next_handle
unfolding open_file opened hand_out
open_file-below q flags os h e = ground arith

text-Kept : {p : Str} {j : ℕ} {whole : Str} (os : Os) → Kept p j whole os → text os p ≡ some whole
unfolding text
text-Kept os k = rw (k.there, k.same) refl

with_writer-ok :
    (h : ℕ) (m : Act (BufWriteCloser × Os) (Unit {0})) (writers : ℕ → BufWriteCloser) (os os' : Os)
    (w w' : BufWriteCloser)
    → writers h ≡ w
    → m (w, os) ≡ (ok tt, (w', os'))
    → with_writer h m (writers, os) ≡ (ok tt, (update writers h w', os'))
unfolding with_writer
with_writer-ok h m writers os os' w w' at e = rw (at, e) refl

update_self : (f : ℕ → BufWriteCloser) (h : ℕ) (w : BufWriteCloser) → update f h w h ≡ w
update_self f h w = ground arith

module _ (path p : Str) (h j : ℕ) (whole : Str) where
  to_file-Apart :
      (written bytes : Str) (os : Os)
      → Apart path p h j whole written os
      → (os' : Os) × (to_file h bytes os ≡ (ok tt, os'))
        × Apart path p h j whole (written ++ bytes) os'
  to_file-Apart written bytes os a =
      let (went, f) = Fresh-write path h written bytes os a.fresh in
      let os' = (write h bytes os).1 in
      let wrote : write h bytes os ≡ (ok (length bytes), os') =
        ap (λ (r : Outcome ℕ). (r, os')) went in
      (os', ap (proceed (λ (n : ℕ). return tt)) wrote, Apart-write written bytes os a)

  -- While a reader is open beside
  abbrev Reads : ℕ → Str → Os → Type 0
  Reads hr written os = (Apart path p h j whole written os) × ((os.handles hr).is_open ≡ true)

  to_file-Reads :
      (hr : ℕ) (written bytes : Str) (os : Os)
      → Reads hr written os
      → (os' : Os) × (to_file h bytes os ≡ (ok tt, os')) × Reads hr (written ++ bytes) os'
  to_file-Reads hr written bytes os r =
      let (went, f) = Fresh-write path h written bytes os (r.0).fresh in
      let os' = (write h bytes os).1 in
      let wrote : write h bytes os ≡ (ok (length bytes), os') =
        ap (λ (r : Outcome ℕ). (r, os')) went in
      (
        os',
        ap (proceed (λ (n : ℕ). return tt)) wrote,
        (Apart-write written bytes os (r.0), write-is_open hr h bytes os (r.1)),
      )

module _ (l : LocalStore) (marshal : Option (Dict Str) → Str) (src des : Object) (j : ℕ)
    (whole : Str) (ne : store_file l des.name ≢ store_file l src.name)
    (ne' : store_file l des.name ++ lit ".metadata" ≢ store_file l src.name) where
  new_writer-Apart :
      (os os' : Os) (w : BufWriteCloser)
      → os.faults ≡ []
      → Kept (store_file l src.name) j whole os
      → new_writer_with_context l marshal des.name src.metadata false os ≡ (ok w, os')
      → (w ≡ new_writer w.handle)
        × Apart (store_file l des.name) (store_file l src.name) w.handle j whole [] os'
        × (w.handle < os'.next_handle)
  new_writer-Apart os os' w calm k e =
      let fo = store_file l des.name in
      let (new, f) = new_writer-Fresh l des.name marshal src.metadata false os w os' calm e in
      let (new', opens) = new_writer-steps l des.name marshal src.metadata false os w os' e in
      let bytes = marshal (kept_metadata src.metadata) in
      let os1 = (ensure_dir fo os).1 in
      let os2 = (write_file (fo ++ lit ".metadata") bytes os1).1 in
      let k1 = Kept-ensure_dir fo os k in
      let k2 = Kept-write_file (fo ++ lit ".metadata") bytes os1 ne' k1 in
      let k3 : Kept (store_file l src.name) j whole os' =
        rw opens at (Kept-open_file os2 k2 fo ne truncating) in
      let gave : (open_file fo truncating os2).0 ≡ ok w.handle =
        ap (λ (x : Outcome ℕ × Os). x.0) opens in
      let other : (os'.handles w.handle).inode ≢ j = rw opens at (
        open_file-inode j os2 fo truncating w.handle
          (k2.linked.known (store_file l src.name) j k2.there) (elsewhere os2 k2 fo ne) gave) in
      (
        new,
        record { fresh = f; kept = k3; other = other },
        rw opens at (open_file-below fo truncating os2 w.handle gave),
      )

  -- From the open writer on
  module _ (os1 : Os) (h : ℕ)
      (a1 : Apart (store_file l des.name) (store_file l src.name) h j whole [] os1)
      (lt : h < os1.next_handle) where
    abbrev hr : ℕ
    hr = os1.next_handle

    abbrev os2 : Os
    os2 = (open_file (store_file l src.name) reading os1).1

    abbrev os3 : Os
    os3 = (drain hr os2).1

    apart : hr ≢ h
    apart e = omega arith

    reader-opens : new_reader l src.name os1 ≡ (ok hr, os2)
    reader-opens =
        new_reader-opens l src.name j whole os1 a1.fresh.calm a1.kept
        ∙ (open_file-Kept (store_file l src.name) j whole os1 a1.fresh.calm a1.kept).0

    drained : (drain hr os2 ≡ (ok (whole, none), os3)) × ((os3.handles hr).is_open ≡ true)
    drained =
        let (went, opened, start, on) =
          open_file-Kept (store_file l src.name) j whole os1 a1.fresh.calm a1.kept in
        let a2 = Apart-open_file [] os1 lt a1 in
        drain-reads hr j whole os2 a2.fresh.calm opened start on a2.kept.same

    a3 : Apart (store_file l des.name) (store_file l src.name) h j whole [] os3
    a3 = Apart-drain hr apart [] os2 (Apart-open_file [] os1 lt a1)

    abbrev Both : Os → Type 0
    Both os =
        (text os (store_file l des.name) ≡ some whole)
        × (text os (store_file l src.name) ≡ some whole)

    -- The bytes go to the buffer and to the file, and both files are closed.
    finished :
        (w4 : BufWriteCloser) × (os4 : Os) × (os5 : Os) × (w6 : BufWriteCloser) × (os6 : Os)
        × (on_writer (λ sink. Bufio.write_buffered sink whole) (new_writer h, os3)
            ≡ (ok tt, (w4, os4)))
        × (close hr os4 ≡ (ok tt, os5))
        × (close_writer (w4, os5) ≡ (ok tt, (w6, os6)))
        × Both os6
    finished =
        let fo = store_file l des.name in
        let p = store_file l src.name in
        let G = Reads fo p h j whole hr in
        let grows = to_file-Reads fo p h j whole hr in
        let (t, wrote, s) =
          write_buffered-Leaves (to_file h) G grows whole fresh_writer os3 []
            (fresh-Stands (to_file h) G grows [] os3 (a3, drained.1)) in
        let (a4, opened) = s.held in
        let os5 = (close hr t.1).1 in
        let a5 = Apart-close hr apart s.written t.1 a4 in
        let s5 : Stands (to_file h) (Apart fo p h j whole) (to_file-Apart fo p h j whole) whole t.0
            os5 =
          record { written = s.written; held = a5; split = s.split; unstuck = s.unstuck } in
        let (w6, os', closes, a6) =
          close_writer-flushes (Apart fo p h j whole) h (to_file-Apart fo p h j whole) t.0 os5 whole
            s5 in
        let closed = close-calm fo h whole os' a6.fresh in
        let os6 = (close h os').1 in
        (
          record { handle = h; writer = t.0 },
          t.1,
          os5,
          w6,
          os6,
          on_writer-ok (λ sink. Bufio.write_buffered sink whole) h fresh_writer os3 t wrote,
          close-open hr t.1 a4.fresh.calm opened,
          closes ∙ ap (λ (r : Outcome (Unit {0})). (r, (w6, os6))) closed.0,
          (text-close_calm fo h whole os' a6.fresh, text-Kept os6 (Kept-close h os' a6.kept)),
        )

  writer_at :
      (writers : ℕ → BufWriteCloser) (os os' : Os) (w : BufWriteCloser)
      → new_writer_with_context l marshal des.name src.metadata false os ≡ (ok w, os')
      → new_writer_at l marshal des.name src.metadata (writers, os)
        ≡ (ok w.handle, (update writers w.handle w, os'))
  unfolding new_writer_at writer_kept
  writer_at writers os os' w e = rw e refl

  copied-Kept :
      (writers : ℕ → BufWriteCloser) (os os1 : Os) (w : BufWriteCloser)
      → os.faults ≡ []
      → Kept (store_file l src.name) j whole os
      → new_writer_with_context l marshal des.name src.metadata false os ≡ (ok w, os1)
      → (v : World) × (copy (as_store l marshal) src des (writers, os) ≡ (ok tt, v))
        × (text v.1 (store_file l des.name) ≡ some whole)
        × (text v.1 (store_file l src.name) ≡ some whole)
  unfolding as_store
  copied-Kept writers os os1 w calm k e =
      let (new, a1, lt) = new_writer-Apart os os1 w calm k e in
      let h = w.handle in
      let (w4, os4, os5, w6, os6, e4, e5, e6, both) = finished os1 h a1 lt in
      let writers1 = update writers h w in
      let writers4 = update writers1 h w4 in
      let v6 : World = (update writers4 h w6, os6) in
      let from = os1.next_handle in
      let opens : new_reader l src.name os1 ≡ (ok from, os2 os1 h a1 lt) =
        reader-opens os1 h a1 lt in
      let drains = (drained os1 h a1 lt).0 in
      let m = on_writer (λ sink. Bufio.write_buffered sink whole) in
      (
        v6,
        copy-runs (as_store l marshal) src des (writers, os) (writers1, os1)
            (writers1, os2 os1 h a1 lt) (writers1, os3 os1 h a1 lt) (writers4, os4) (writers4, os5)
            v6 h from whole refl (writer_at writers os os1 w e)
            (ap (λ (x : Outcome ℕ × Os). (x.0, (writers1, x.1))) opens)
            (ap (λ (x : Outcome (Str × Option Err) × Os). (x.0, (writers1, x.1))) drains)
            (with_writer-ok h m writers1 (os3 os1 h a1 lt) os4 (new_writer h) w4
              (update_self writers h w ∙ new) e4)
            (ap (λ (x : Outcome (Unit {0}) × Os). (x.0, (writers4, x.1))) e5)
            (with_writer-ok h close_writer writers4 os5 os6 w4 w6 (update_self writers1 h w4) e6),
        both.0,
        both.1,
      )

-- Copy between objects of the local store that have different files, of which the source is not the
-- metadata of the destination, succeeds where NewWriter of the destination does, no file has two
-- names and no call on files meets a fault: the destination has the bytes of the source, and the
-- source keeps them.
pub copy-text :
    (l : LocalStore) (marshal : Option (Dict Str) → Str) (src des : Object)
    (writers : ℕ → BufWriteCloser) (os os1 : Os) (w : BufWriteCloser) (whole : Str)
    → IsLinked os
    → os.faults ≡ []
    → text os (store_file l src.name) ≡ some whole
    → store_file l des.name ≢ store_file l src.name
    → store_file l des.name ++ lit ".metadata" ≢ store_file l src.name
    → new_writer_with_context l marshal des.name src.metadata false os ≡ (ok w, os1)
    → (v : World) × (copy (as_store l marshal) src des (writers, os) ≡ (ok tt, v))
      × (text v.1 (store_file l des.name) ≡ some whole)
      × (text v.1 (store_file l src.name) ≡ some whole)
copy-text l marshal src des writers os os1 w whole linked calm there ne ne' e =
    let (j, entry, same) = there-cases (store_file l src.name) whole os there in
    copied-Kept l marshal src des j whole ne ne' writers os os1 w calm
      (record { linked = linked; there = entry; same = same }) e
