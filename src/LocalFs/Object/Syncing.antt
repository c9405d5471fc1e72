-- ===== src/LocalFs/Object/Syncing.antt =====
-- Sync of a local object brings the cached copy to the file of the store.
use cloudstorage.Base.{
  ℕ, ◌<◌, ◌≡◌, refl, ap, ◌∙◌, ◌≢◌, inl, inr, Option, some, [], ◌++◌, arith, Str, lit, length,
  length-append, Outcome, ok, fail, Outcome-cases, deferring,
}
use cloudstorage.Base.Dict
use cloudstorage.Base.Dict.{Dict}
use cloudstorage.Os.{Os, Handle, file, reading, truncating, open_file, copy, close, write_file}
use cloudstorage.Os.View.{text, text-close}
use cloudstorage.Os.Holds.{Holds, Holds-open_file}
use cloudstorage.Os.Linked.{
  IsLinked, IsLinked-same, IsLinked-open_file, open_file-reading, open_file-truncating, copy-whole,
}
use cloudstorage.Os.Frame.{Frame, Frame-write_file, Frame-text}
use cloudstorage.LocalFs.Object.{
  Object, on_files, metadata_path, sync_object, store_copy, copy_back, clear_metadata, writemeta,
  kept_metadata,
}

longer : (s t : Str) → length t ≡ 9 → s ++ t ≢ s
longer s t e same = omega (arith, length-append s t, ap length same)

text-there :
    (os : Os) (p : Str) (j : ℕ) (whole : Str)
    → Dict.lookup p os.entries ≡ some (file j)
    → os.inodes j ≡ whole
    → text os p ≡ some whole
unfolding text
text-there os p j whole e f = rw (e, f)

module _ (marshal : Option (Dict Str) → Str) where
  -- Behind the copy: the metadata are written to a file of another name.
  copy_back-text :
      (o : Object) (os : Os) (g j : ℕ) (whole : Str)
      → IsLinked os
      → Dict.lookup o.storepath os.entries ≡ some (file j)
      → os.inodes j ≡ whole
      → g < os.next_handle
      → text (writemeta marshal (metadata_path o) (kept_metadata o.metadata) os).1 o.storepath
        ≡ some whole
  unfolding writemeta
  copy_back-text o os g j whole L there same lt =
      let other = longer o.storepath (lit ".metadata") refl in
      let kept : Frame o.storepath j g os
          (write_file (metadata_path o) (marshal (kept_metadata o.metadata)) os).1 =
        Frame-write_file os (metadata_path o) (marshal (kept_metadata o.metadata)) lt
          (L.known o.storepath j there) other
          (λ e. other (L.alone (metadata_path o) o.storepath j e there)) in
      Frame-text kept there ∙ text-there os o.storepath j whole there same

  -- Behind the two opens: the copy, the metadata and the two closes, where the copy ends well.
  abbrev Back : Object → ℕ → ℕ → Os → Outcome (Unit {0}) × (Object × Os)
  Back o g h os =
      deferring (on_files (λ p. close h))
        (deferring (on_files (λ p. close g)) (copy_back marshal g h)) (o, os)

  back-text :
      (o : Object) (os : Os) (g h : ℕ) (whole : Str)
      → IsLinked os
      → Holds o.storepath g [] os
      → os.inodes (os.handles h).inode ≡ whole
      → (os.handles g).inode ≢ (os.handles h).inode
      → (os.handles h).offset ≡ 0
      → (os.handles g).offset ≡ 0
      → g < os.next_handle
      → (Back o g h os).0 ≡ ok tt
      → text (Back o g h os).1.1 o.storepath ≡ some whole
  unfolding copy_back clear_metadata
  back-text o os g h whole L st src ne a b lt e = elim (Outcome-cases (copy g h os)) [
    | inr (x, os', f) ↦ absurd (let stuck : fail x ≡ ok tt = rw f at e in cc)
    | inl (n, os', f) ↦
        let moved =
          rw f at (copy-whole os g h n a b (st.1) ne (ap (λ (x : Outcome ℕ × Os). x.0) f)) in
        let L' : IsLinked os' = IsLinked-same os os' (moved.1) (moved.2) L in
        let done = (writemeta marshal (metadata_path o) (kept_metadata o.metadata) os').1 in
        rw f (
          text-close (close g done).1 o.storepath h
          ∙ text-close done o.storepath g
          ∙ copy_back-text o os' g (os.handles g).inode whole L' (rw (moved.1) (st.0))
              (moved.0 ∙ src) (rw (moved.3) lt))
  ]

  -- Sync that ends well, whatever the faults, leaves the bytes of the cached copy in the file of the
  -- store, in a file system in which no file has two names, and the two paths differ.
  pub sync_object-copied :
      (o : Object) (os : Os) (i : ℕ) (t : Object × Os)
      → IsLinked os
      → Dict.lookup o.cachepath os.entries ≡ some (file i)
      → o.cachepath ≢ o.storepath
      → sync_object marshal (o, os) ≡ (ok tt, t)
      → text t.1 o.storepath ≡ some (os.inodes i)
  unfolding sync_object store_copy
  sync_object-copied o os i t L there apart e =
      let stored : store_copy marshal (o, os) ≡ (ok tt, t) = ground arith in
      elim (Outcome-cases (open_file o.cachepath reading os)) [
        | inr (x, os1, f) ↦
            absurd (let stuck : (fail x, (o, os1)) ≡ (ok tt, t) = rw f at stored in cc)
        | inl (h, os1, f) ↦
            let opened =
              rw f at
                (open_file-reading o.cachepath os i h there (ap (λ (x : Outcome ℕ × Os). x.0) f)) in
            let L1 = IsLinked-same os os1 (opened.0) (opened.1) L in
            let there1 : Dict.lookup o.cachepath os1.entries ≡ some (file i) =
              rw (opened.0) there in
            elim (Outcome-cases (open_file o.storepath truncating os1)) [
              | inr (x, os2, k) ↦ absurd (
                  let stuck : (fail x, (o, (close h os2).1)) ≡ (ok tt, t) = rw (f, k) at stored in
                  cc)
              | inl (g, os2, k) ↦
                  let e2 = ap (λ (x : Outcome ℕ × Os). x.0) k in
                  let made = rw k at (
                    open_file-truncating o.storepath os1 i h g o.cachepath (opened.5)
                      (L1.known o.cachepath i there1) apart
                      (λ s. apart (L1.alone o.cachepath o.storepath i there1 s)) e2) in
                  let st : Holds o.storepath g [] os2 =
                    rw k at (Holds-open_file o.storepath g os1 e2) in
                  let L2 : IsLinked os2 =
                    rw k at (IsLinked-open_file o.storepath os1 L1 truncating) in
                  let h_at : (os2.handles h).inode ≡ i =
                    ap (λ (r : Handle). r.inode) (made.2) ∙ opened.3 in
                  let ends : Back o g h os2 ≡ (ok tt, t) = rw (f, k) at stored in
                  let put =
                    back-text o os2 g h (os.inodes i) L2 st (rw h_at (made.1 ∙ opened.2))
                      (λ same. apart (
                        L2.alone o.cachepath o.storepath i (made.0 ∙ there1)
                          (st.0 ∙ ap (λ (k : ℕ). some (file k)) (same ∙ h_at))))
                      (ap (λ (r : Handle). r.offset) (made.2) ∙ opened.4) (made.3) (made.5)
                      (ap (λ (x : Outcome (Unit {0}) × (Object × Os)). x.0) ends) in
                  rw (ap (λ (x : Outcome (Unit {0}) × (Object × Os)). x.1.1) ends) at put
            ]
      ]
