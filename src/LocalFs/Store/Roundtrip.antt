-- ===== src/LocalFs/Store/Roundtrip.antt =====
-- What is written to the local store is read from it.
use cloudstorage.Base.{
  ℕ, ◌≡◌, refl, sym, ap, ◌∙◌, inl, inr, Bool, true, Option, none, some, List, [], ◌++◌, arith,
  Option-cases, Str, lit, Outcome, ok, Act, return, ◌>>=◌, ◌>>◌, proceed-eq-ok, Outcome-cases,
}
use mathlib.Core.List.{flatten}
use cloudstorage.Base.Dict
use cloudstorage.Base.Dict.{Dict}
use cloudstorage.Os.{
  Os, directory, file, reading, truncating, exists, open_file, opened, hand_out, write, put_bytes,
  close, write_file, unread, stat,
}
use cloudstorage.Os.View.{text}
use cloudstorage.Os.Kept.{Kept}
use cloudstorage.Os.Beside.{exists-Kept}
use cloudstorage.Os.Fresh.{Fresh, Fresh-open_file}
use cloudstorage.Os.Frame.{proceed-return}
use cloudstorage.FileHelper.{ensure_dir}
use cloudstorage.FileHelper.Calm.{faults-ensure_dir}
use cloudstorage.Csbufio.{BufWriteCloser, new_writer, write_all, close_writer, open_reader}
use cloudstorage.Csbufio.Writing.{State, close_writer-written}
use cloudstorage.LocalFs.Object.{writemeta, kept_metadata}
use cloudstorage.LocalFs.Store.{
  LocalStore, store_file, new_writer_with_context, open_found, new_reader,
}

faults-open_file :
    (path : Str) (os : Os) → os.faults ≡ [] → (open_file path truncating os).1.faults ≡ []
unfolding open_file opened hand_out
faults-open_file path os calm = ground arith

faults-write : (h : ℕ) (bytes : Str) (os : Os) → os.faults ≡ [] → (write h bytes os).1.faults ≡ []
unfolding write put_bytes
faults-write h bytes os calm = ground arith

faults-close : (h : ℕ) (os : Os) → os.faults ≡ [] → (close h os).1.faults ≡ []
unfolding close
faults-close h os calm = ground arith

-- A file with a text
pub there-cases :
    (path whole : Str) (os : Os)
    → text os path ≡ some whole
    → (i : ℕ) × (Dict.lookup path os.entries ≡ some (file i)) × (os.inodes i ≡ whole)
unfolding text
there-cases path whole os e = elim (Option-cases (Dict.lookup path os.entries)) [
  | inl gone ↦ absurd (let stuck : none ≡ some whole = rw gone at e in cc)
  | inr (directory, there) ↦ absurd (let stuck : none ≡ some whole = rw there at e in cc)
  | inr (file i, there) ↦
      let same : some (os.inodes i) ≡ some whole = rw there at e in (i, there, cc)
]

faults-write_file :
    (path bytes : Str) (os : Os) → os.faults ≡ [] → (write_file path bytes os).1.faults ≡ []
unfolding write_file
faults-write_file path bytes os calm = elim (Outcome-cases (open_file path truncating os)) [
  | inr (x, b, e) ↦ rw e (rw e at (faults-open_file path os calm))
  | inl (h, b, e) ↦
      let calm' : b.faults ≡ [] = rw e at (faults-open_file path os calm) in
      rw (e, proceed-return) (faults-close h (write h bytes b).1 (faults-write h bytes b calm'))
]

-- Exists of a file that is there
exists-there :
    (path : Str) (i : ℕ) (os : Os)
    → os.faults ≡ []
    → Dict.lookup path os.entries ≡ some (file i)
    → exists path os ≡ (ok true, (exists path os).1)
      × ((exists path os).1.faults ≡ [])
      × ((exists path os).1.entries ≡ os.entries)
      × ((exists path os).1.inodes ≡ os.inodes)
unfolding exists stat
exists-there path i os calm there = (
  ap (λ (r : Outcome Bool). (r, (exists path os).1)) (ground (arith, calm, there)),
  ground (arith, calm),
  ground arith,
  ground arith,
)

open_reader-there :
    (path : Str) (i : ℕ) (os : Os)
    → os.faults ≡ []
    → Dict.lookup path os.entries ≡ some (file i)
    → ((open_reader path os).0 ≡ ok os.next_handle)
      × (unread (open_reader path os).1 os.next_handle ≡ os.inodes i)
unfolding open_reader open_file opened hand_out
open_reader-there path i os calm there = (ground (arith, calm, there), ground (arith, calm, there))

module _ (l : LocalStore) (o : Str) where
  -- NewReader gives out a handle at the start of a file that is there.
  new_reader-there :
      (whole : Str) (os : Os)
      → os.faults ≡ []
      → text os (store_file l o) ≡ some whole
      → (h : ℕ) × ((new_reader l o os).0 ≡ ok h) × (unread (new_reader l o os).1 h ≡ whole)
  unfolding new_reader open_found
  new_reader-there whole os calm e =
      let (i, there, full) = there-cases (store_file l o) whole os e in
      let (found, calm', entries, inodes) = exists-there (store_file l o) i os calm there in
      let os' = (exists (store_file l o) os).1 in
      let (went, all) = open_reader-there (store_file l o) i os' calm' (rw entries there) in
      (os'.next_handle, rw found went, rw found (all ∙ rw inodes full))

  -- NewReader of a file that is there opens it.
  pub new_reader-opens :
      (j : ℕ) (whole : Str) (os : Os)
      → os.faults ≡ []
      → Kept (store_file l o) j whole os
      → new_reader l o os ≡ open_file (store_file l o) reading os
  unfolding new_reader open_found open_reader
  new_reader-opens j whole os calm k = rw (exists-Kept (store_file l o) j whole os calm k) refl

  module _ (marshal : Option (Dict Str) → Str) where
    -- The calls of a NewWriter that succeeds
    pub new_writer-steps :
        (metadata : Option (Dict Str)) (if_not_exists : Bool) (os : Os) (w : BufWriteCloser)
        (os' : Os)
        → new_writer_with_context l marshal o metadata if_not_exists os ≡ (ok w, os')
        → let fo = store_file l o in
          let os1 = (ensure_dir fo os).1 in
          let os2 = (write_file (fo ++ lit ".metadata") (marshal (kept_metadata metadata)) os1).1 in
          (w ≡ new_writer w.handle)
          × (open_file fo (record truncating { exclusive = if_not_exists }) os2
              ≡ (ok w.handle, os'))
    unfolding new_writer_with_context writemeta
    new_writer-steps metadata if_not_exists os w os' e =
        let fo = store_file l o in
        let md = fo ++ lit ".metadata" in
        let open_it : Unit {0} → Act Os BufWriteCloser = λ u.
          open_file fo (record truncating { exclusive = if_not_exists }) >>= λ f.
          return (new_writer f) in
        let meta : Unit {0} → Act Os BufWriteCloser =
          λ u. writemeta marshal md (kept_metadata metadata) >>= open_it in
        let (u, os1, e1, f1) = proceed-eq-ok meta (ensure_dir fo os) e in
        let (v, os2, e2, f2) =
          proceed-eq-ok open_it (writemeta marshal md (kept_metadata metadata) os1) f1 in
        let wrote : write_file md (marshal (kept_metadata metadata)) os1 ≡ (ok v, os2) = e2 in
        let (h, os3, e3, f3) =
          proceed-eq-ok (λ f. return (new_writer f))
            (open_file fo (record truncating { exclusive = if_not_exists }) os2) f2 in
        let same : new_writer h ≡ w = cc in
        let world : os3 ≡ os' = ap (λ (x : Outcome BufWriteCloser × Os). x.1) f3 in
        rw (e1, wrote, sym same) (refl, e3 ∙ ap (λ (s : Os). (ok h, s)) world)

    pub new_writer-Fresh :
        (metadata : Option (Dict Str)) (if_not_exists : Bool) (os : Os) (w : BufWriteCloser)
        (os' : Os)
        → os.faults ≡ []
        → new_writer_with_context l marshal o metadata if_not_exists os ≡ (ok w, os')
        → (w ≡ new_writer w.handle) × Fresh (store_file l o) w.handle [] os'
    new_writer-Fresh metadata if_not_exists os w os' calm e =
        let fo = store_file l o in
        let (new, opens) = new_writer-steps metadata if_not_exists os w os' e in
        let os1 = (ensure_dir fo os).1 in
        let bytes = marshal (kept_metadata metadata) in
        let os2 = (write_file (fo ++ lit ".metadata") bytes os1).1 in
        let calm2 : os2.faults ≡ [] =
          faults-write_file (fo ++ lit ".metadata") bytes os1 (faults-ensure_dir fo os calm) in
        let f : Fresh fo w.handle [] os' = rw opens at (
          Fresh-open_file fo w.handle if_not_exists os2 calm2
            (ap (λ (x : Outcome ℕ × Os). x.0) opens)) in
        (new, f)

    -- What a client writes to a new object or over an old one of the local store, in whatever pieces,
    -- NewReader gives back, where NewWriter succeeded and no call on files meets a fault.
    pub new_reader-new_writer :
        (metadata : Option (Dict Str)) (if_not_exists : Bool) (os : Os) (w : BufWriteCloser)
        (os' : Os) (chunks : List Str)
        → os.faults ≡ []
        → new_writer_with_context l marshal o metadata if_not_exists os ≡ (ok w, os')
        → (t : State) × ((write_all chunks >> close_writer) (w, os') ≡ (ok tt, t))
          × (h : ℕ) × ((new_reader l o t.1).0 ≡ ok h)
          × (unread (new_reader l o t.1).1 h ≡ flatten chunks)
    new_reader-new_writer metadata if_not_exists os w os' chunks calm e =
        let (new, f) = new_writer-Fresh metadata if_not_exists os w os' calm e in
        let (t, wrote, there, calm') =
          close_writer-written (store_file l o) chunks w.handle os' f in
        let (h, found, all) = new_reader-there (flatten chunks) t.1 calm' there in
        (t, rw new wrote, h, found, all)
