-- ===== src/Cloud/Syncing/Pushed.antt =====
-- A Sync that ends well has uploaded the file of the cached copy.
use cloudstorage.Base.{
  ℕ, ◌≡◌, refl, sym, ap, ◌∙◌, inl, inr, some, arith, Str, message, Outcome, ok, fail, Act,
  Outcome-cases, described, described-eq-ok,
}
use cloudstorage.Base.Dict
use cloudstorage.Os.{Os, file, updating, open_file, seek_start, close}
use cloudstorage.Os.Reading.{inode-open_file, inode-seek_start}
use cloudstorage.Os.Holds.{offset-seek_start}
use cloudstorage.Cloud.Object.{Object, State, on_os}
use cloudstorage.Cloud.Syncing.{put_file, push_copy, sync_object}

-- A handle at the start of a text
abbrev pub AtStart : ℕ → Str → Os → Type 0
AtStart h text os = ((os.handles h).offset ≡ 0) × (os.inodes (os.handles h).inode ≡ text)

module _ {C : Type 0} (upload_file : ℕ → Act (State C) (Unit {0})) where
  put_file-uploads :
      (o : Object) (c : C) (os : Os) (h : ℕ) (t : State C)
      → put_file upload_file h (o, (c, os)) ≡ (ok tt, t)
      → (os' : Os) × AtStart h (os.inodes (os.handles h).inode) os'
        × (upload_file h (o, (c, os')) ≡ (ok tt, t))
  unfolding put_file
  put_file-uploads o c os h t e = elim (Outcome-cases (seek_start h os)) [
    | inr (x, os', f) ↦ absurd (
        let stuck : (fail (message "error seeking to start of cachedcopy"), (o, (c, os')))
            ≡ (ok tt, t) =
          rw f at e in
        cc)
    | inl (u, os', f) ↦
        let start =
          rw f at (offset-seek_start h os u (ap (λ (x : Outcome (Unit {0}) × Os). x.0) f)) in
        let same = rw f at (inode-seek_start h os) in
        let rest : described "failed to upload file, %v" (upload_file h (o, (c, os')))
            ≡ (ok tt, t) =
          rw f at e in
        (
          os',
          (start, same),
          described-eq-ok "failed to upload file, %v" (upload_file h (o, (c, os'))) tt t rest,
        )
  ]

  -- A close of the handle at the end changes neither the result nor the service.
  closed-ok :
      (h : ℕ) (x : Outcome (Unit {0}) × State C) (t : State C)
      → ◌≡◌ {A = Outcome (Unit {0}) × State C} (x.0, (on_os (λ p. close h) x.1).1) (ok tt, t)
      → (x ≡ (ok tt, x.1)) × (t.1.0 ≡ x.1.1.0)
  closed-ok h (ok u, s) t e = (refl, sym (ap (λ (x : Outcome (Unit {0}) × State C). x.1.1.0) e))
  closed-ok h (fail y, s) t e = cc

  -- The upload got a handle at the start of the file, and left the service as it is.
  pub sync_object-uploads :
      (o : Object) (c : C) (os : Os) (i : ℕ) (t : State C)
      → Dict.lookup o.cachepath os.entries ≡ some (file i)
      → sync_object upload_file (o, (c, os)) ≡ (ok tt, t)
      → (h : ℕ) × (os' : Os) × (s : State C) × AtStart h (os.inodes i) os'
        × (upload_file h (o, (c, os')) ≡ (ok tt, s))
        × (t.1.0 ≡ s.1.0)
  unfolding sync_object push_copy
  sync_object-uploads o c os i t there e =
      let pushed : push_copy upload_file (o, (c, os)) ≡ (ok tt, t) = ground arith in
      elim (Outcome-cases (open_file o.cachepath updating os)) [
        | inr (x, os', f) ↦ absurd (
            let stuck : (fail (message "couldn't open localfile for sync'ing."), (o, (c, os')))
                ≡ (ok tt, t) =
              rw f at pushed in
            cc)
        | inl (h, os', f) ↦
            let put = put_file upload_file h (o, (c, os')) in
            let whole =
              rw f at
                (inode-open_file o.cachepath os i h there (ap (λ (x : Outcome ℕ × Os). x.0) f)) in
            let ends : (put.0, (on_os (λ p. close h) put.1).1) ≡ (ok tt, t) = rw f at pushed in
            let (done, same) = closed-ok h put t ends in
            let (os1, start, uploaded) = put_file-uploads o c os' h put.1 done in
            (h, os1, put.1, (start.0, start.1 ∙ whole), uploaded, same)
      ]
