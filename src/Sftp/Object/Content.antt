-- ===== src/Sftp/Object/Content.antt =====
-- Sync of the object of sftp/store.go brings the cached copy to the server.
use cloudstorage.Base.{
  ℕ, ◌≡◌, refl, sym, ap, ◌∙◌, inl, inr, Option, none, some, [], ◌∷◌, ◌++◌, arith, Option-cases, Str,
  Err, file_closed, Outcome, ok, fail, Act, ◌>>=◌, ◌>>◌, proceed-eq-ok, Outcome-cases, deferring,
  describing,
}
use cloudstorage.Base.Dict
use cloudstorage.Base.Dict.{Dict}
use cloudstorage.Os.{Os, file, reading, open_file, sync, close, drain}
use cloudstorage.Os.Holds.{Whole, drain-Whole}
use cloudstorage.Os.Linked.{open_file-reading}
use cloudstorage.Sftp.Names.{concat}
use cloudstorage.Sftp.Client.{Ftp, Client, Object}
use cloudstorage.Sftp.Object.{
  State, on_os, on_server, change, unless_closed, remote_name, make_dirs, drop_old, send, upload,
  push_copy, sync_object,
}

-- The documented behaviour of the server: a file that is created is empty, what is written on it is
-- added to it, and a close changes no file.
pub record IsServer {F : Type 0} (ftp : Ftp F) : Type 0 where
  pub content : F → Str → Option Str
  pub target : F → ℕ → Str
  pub create_lem :
      (name : Str) (s s' : F) (f : ℕ)
      → ftp.create name s ≡ (ok f, s')
      → (target s' f ≡ name) × (content s' name ≡ some [])
  pub read_from_lem :
      (f : ℕ) (bytes old : Str) (s s' : F)
      → ftp.read_from f bytes s ≡ (ok tt, s')
      → content s (target s f) ≡ some old
      → content s' (target s f) ≡ some (old ++ bytes)
  pub close_lem : (f : ℕ) (s : F) → content (ftp.close f s).1 ≡ content s

-- The files of one state are those of another.
abbrev Kept : Os → Os → Type 0
Kept a b = (b.entries ≡ a.entries) × (b.inodes ≡ a.inodes)

sync-Kept : (h : ℕ) (os : Os) → Kept os (sync h os).1
unfolding sync
sync-Kept h os = (ground arith, ground arith)

close-Kept : (h : ℕ) (os : Os) → Kept os (close h os).1
unfolding close
close-Kept h os = (ground arith, ground arith)

unless_closed-state : {F : Type 0} (x : Outcome (Unit {0}) × State F) → (unless_closed x).1 ≡ x.1
unfolding unless_closed
unless_closed-state (ok a, s) = refl
unless_closed-state (fail file_closed, s) = refl
unless_closed-state (fail _, s) = refl

module _ {F : Type 0} (m : Client) (ftp : Ftp F) (L : IsServer ftp) where
  send-ok :
      (f : ℕ) (bytes : Str) (end : Option Err) (s t : State F)
      → send m ftp f (bytes, end) s ≡ (ok tt, t)
      → (end ≡ none) × (ftp.read_from f bytes s.1.0.1 ≡ (ok tt, t.1.0.1))
  unfolding send
  send-ok f bytes none s t e = elim (Outcome-cases (ftp.read_from f bytes s.1.0.1)) [
    | inl (tt, v, g) ↦
        let ends : (ok tt, (s.0, ((s.1.0.0, v), s.1.1))) ≡ (ok tt, t) = rw g at e in
        (refl, g ∙ ap (λ (x : Outcome (Unit {0}) × State F). (ok tt, x.1.1.0.1)) ends)
    | inr (x, v, g) ↦
        absurd (let stuck : (fail x, (s.0, ((s.1.0.0, v), s.1.1))) ≡ (ok tt, t) = rw g at e in cc)
  ]
  send-ok f bytes (some y) s t e = elim (Outcome-cases (ftp.read_from f bytes s.1.0.1)) [
    | inl (u, v, g) ↦
        absurd (let stuck : (fail y, (s.0, ((s.1.0.0, v), s.1.1))) ≡ (ok tt, t) = rw g at e in cc)
    | inr (x, v, g) ↦
        absurd (let stuck : (fail x, (s.0, ((s.1.0.0, v), s.1.1))) ≡ (ok tt, t) = rw g at e in cc)
  ]

  -- What making room for the file leaves alone.
  drop_old-same :
      (s t : State F) → drop_old m ftp s ≡ (ok tt, t) → (t.0.name ≡ s.0.name) × (t.1.1 ≡ s.1.1)
  unfolding drop_old
  drop_old-same s t e = elim (Option-cases s.0.file) [
    | inl new ↦
        let ends : (ok tt, s) ≡ (ok tt, t) = rw (new, drop_old) at e in
        let same = ap (λ (x : Outcome (Unit {0}) × State F). x.1) ends in
        (ap (λ (x : State F). x.0.name) (sym same), ap (λ (x : State F). x.1.1) (sym same))
    | inr (f, old) ↦
        let shut = (ftp.close f s.1.0.1).1 in
        elim (Outcome-cases (ftp.remove (remote_name m ftp s.0) shut)) [
          | inl (u, v, g) ↦
              let ends : (ok tt, (record s.0 { file = none }, ((s.1.0.0, v), s.1.1))) ≡ (ok tt, t) =
                rw (old, g, drop_old) at e in
              let same = ap (λ (x : Outcome (Unit {0}) × State F). x.1) ends in
              (ap (λ (x : State F). x.0.name) (sym same), ap (λ (x : State F). x.1.1) (sym same))
          | inr (x, v, g) ↦ absurd (
              let stuck : (fail x, (s.0, ((s.1.0.0, v), s.1.1))) ≡ (ok tt, t) =
                rw (old, g, drop_old) at e in
              cc)
        ]
  ]

  abbrev Body : ℕ → ℕ → Act (State F) (Unit {0})
  Body f h =
      deferring (on_server λ o. ftp.close f) (do text ← on_os λ o. drain h; send m ftp f text)

  sent-content :
      (f : ℕ) (text whole name : Str) (end : Option Err) (s t : State F)
      → L.content s.1.0.1 name ≡ some []
      → L.target s.1.0.1 f ≡ name
      → Whole whole (ok (text, end))
      → send m ftp f (text, end) s ≡ (ok tt, t)
      → L.content t.1.0.1 name ≡ some whole
  sent-content f text whole name end s t empty to w e =
      let (ended, sent) = send-ok f text end s t e in
      let same : text ≡ whole = rw ended at w in
      let put = L.read_from_lem f text [] s.1.0.1 t.1.0.1 sent (rw to empty) in rw (to, same) at put

  body-content :
      (f h : ℕ) (name : Str) (s t : State F)
      → L.content s.1.0.1 name ≡ some []
      → L.target s.1.0.1 f ≡ name
      → (s.1.1.handles h).offset ≡ 0
      → Body f h s ≡ (ok tt, t)
      → L.content t.1.0.1 name ≡ some (s.1.1.inodes (s.1.1.handles h).inode)
  body-content f h name s t empty to z e =
      let w = drain-Whole h s.1.1 z in
      elim (Outcome-cases (drain h s.1.1)) [
        | inr (x, os', g) ↦ absurd (
            let stuck : (fail x, (on_server (λ o. ftp.close f) (s.0, (s.1.0, os'))).1)
                ≡ (ok tt, t) =
              rw g at e in
            cc)
        | inl ((text, end), os', g) ↦
            let r = send m ftp f (text, end) (s.0, (s.1.0, os')) in
            let ends : (r.0, (on_server (λ o. ftp.close f) r.1).1) ≡ (ok tt, t) = rw g at e in
            let sent : r ≡ (ok tt, r.1) =
              ap (λ (x : Outcome (Unit {0})). (x, r.1))
                (ap (λ (x : Outcome (Unit {0}) × State F). x.0) ends) in
            let put =
              sent-content f text (s.1.1.inodes (s.1.1.handles h).inode) name end
                (s.0, (s.1.0, os')) r.1 empty to (rw g at w) sent in
            ap (λ (x : Outcome (Unit {0}) × State F). L.content x.1.1.0.1 name) (sym ends)
            ∙ ap (λ (c : Str → Option Str). c name) (L.close_lem f r.1.1.0.1)
            ∙ put
      ]

  -- The upload of a local file from its start
  upload-content :
      (h : ℕ) (s t : State F)
      → (s.1.1.handles h).offset ≡ 0
      → upload m ftp h s ≡ (ok tt, t)
      → L.content t.1.0.1 (concat (m.bucket ∷ s.0.name ∷ []))
        ≡ some (s.1.1.inodes (s.1.1.handles h).inode)
  unfolding upload make_dirs
  upload-content h s t z e =
      let made = (make_dirs m ftp s).1 in
      let (u, s1, e1, f1) =
        proceed-eq-ok
          (λ (u : Unit {0}). (on_server λ o. ftp.create (remote_name m ftp o)) >>= λ f. Body f h)
          (drop_old m ftp made) e in
      let same = drop_old-same made s1 e1 in
      elim (Outcome-cases (ftp.create (remote_name m ftp s1.0) s1.1.0.1)) [
        | inr (x, v, g) ↦
            absurd (
              let stuck : (fail x, (s1.0, ((s1.1.0.0, v), s1.1.1))) ≡ (ok tt, t) = rw g at f1 in cc)
        | inl (f, v, g) ↦
            let fresh = L.create_lem (remote_name m ftp s1.0) s1.1.0.1 v f g in
            let put =
              body-content f h (remote_name m ftp s1.0) (s1.0, ((s1.1.0.0, v), s1.1.1)) t (fresh.1)
                (fresh.0) (rw (same.1) z) (rw g at f1) in
            rw (same.0, same.1) at put
      ]

  abbrev Last : ℕ → Act (State F) (Unit {0})
  Last h =
      change (λ o. record o { cachedcopy = some h })
      >> on_os λ o. describing "error on closing localfile. %q" (close h)

  abbrev Pulled : Act (State F) (Unit {0})
  Pulled = (on_os λ o. open_file o.cachepath reading) >>= λ h. upload m ftp h >> Last h

  Last-server : (h : ℕ) (s : State F) → (Last h s).1.1.0 ≡ s.1.0
  Last-server h s = refl

  Pulled-content :
      (i : ℕ) (s t : State F)
      → Dict.lookup s.0.cachepath s.1.1.entries ≡ some (file i)
      → Pulled s ≡ (ok tt, t)
      → L.content t.1.0.1 (concat (m.bucket ∷ s.0.name ∷ [])) ≡ some (s.1.1.inodes i)
  Pulled-content i s t there e = elim (Outcome-cases (open_file s.0.cachepath reading s.1.1)) [
    | inr (x, os', g) ↦
        absurd (let stuck : (fail x, (s.0, (s.1.0, os'))) ≡ (ok tt, t) = rw g at e in cc)
    | inl (h, os', g) ↦
        let opened =
          rw g at (
            open_file-reading s.0.cachepath s.1.1 i h there (ap (λ (x : Outcome ℕ × Os). x.0) g)) in
        let (u, v, e1, f1) =
          proceed-eq-ok (λ (u : Unit {0}). Last h) (upload m ftp h (s.0, (s.1.0, os')))
            (rw g at e) in
        let put = upload-content h (s.0, (s.1.0, os')) v (opened.4) e1 in
        let served : t.1.0 ≡ v.1.0 =
          ap (λ (x : Outcome (Unit {0}) × State F). x.1.1.0) (sym f1) ∙ Last-server h v in
        ap (λ (c : Dict (Unit {0}) × F). L.content c.1 (concat (m.bucket ∷ s.0.name ∷ []))) served
        ∙ put
        ∙ rw (opened.3, opened.2)
  ]

  push_copy-content :
      (old i : ℕ) (s t : State F)
      → Dict.lookup s.0.cachepath s.1.1.entries ≡ some (file i)
      → push_copy m ftp old s ≡ (ok tt, t)
      → L.content t.1.0.1 (concat (m.bucket ∷ s.0.name ∷ [])) ≡ some (s.1.1.inodes i)
  unfolding push_copy
  push_copy-content old i s t there e =
      let shut : Act (State F) (Unit {0}) = λ v. unless_closed (on_os (λ o. close old) v) in
      let (u, s1, e1, f1) =
        proceed-eq-ok (λ (u : Unit {0}). shut >> Pulled) (unless_closed (on_os (λ o. sync old) s))
          e in
      let (v, s2, e2, f2) = proceed-eq-ok (λ (u : Unit {0}). Pulled) (shut s1) f1 in
      let at1 : s1 ≡ (s.0, (s.1.0, (sync old s.1.1).1)) =
        ap (λ (x : Outcome (Unit {0}) × State F). x.1) (sym e1)
        ∙ unless_closed-state (on_os (λ o. sync old) s) in
      let at2 : s2 ≡ (s1.0, (s1.1.0, (close old s1.1.1).1)) =
        ap (λ (x : Outcome (Unit {0}) × State F). x.1) (sym e2)
        ∙ unless_closed-state (on_os (λ o. close old) s1) in
      let object : s2.0 ≡ s.0 = ap (λ (x : State F). x.0) at2 ∙ ap (λ (x : State F). x.0) at1 in
      let entries =
        ap (λ (x : State F). x.1.1.entries) at2
        ∙ (close-Kept old s1.1.1).0
        ∙ ap (λ (x : State F). x.1.1.entries) at1
        ∙ (sync-Kept old s.1.1).0 in
      let inodes =
        ap (λ (x : State F). x.1.1.inodes i) at2
        ∙ ap (λ (f : ℕ → Str). f i) ((close-Kept old s1.1.1).1)
        ∙ ap (λ (x : State F). x.1.1.inodes i) at1
        ∙ ap (λ (f : ℕ → Str). f i) ((sync-Kept old s.1.1).1) in
      rw (object, inodes) at (Pulled-content i s2 t (rw (object, entries) there) f2)

  -- Sync of an object that ends well leaves on the server the bytes of the cached copy, under the name
  -- of the object behind the bucket, whatever calls failed whose errors are dropped.
  pub sync_object-uploaded :
      (o : Object) (c : Dict (Unit {0}) × F) (os : Os) (i : ℕ) (t : State F)
      → Dict.lookup o.cachepath os.entries ≡ some (file i)
      → sync_object m ftp (o, (c, os)) ≡ (ok tt, t)
      → L.content t.1.0.1 (concat (m.bucket ∷ o.name ∷ [])) ≡ some (os.inodes i)
  unfolding sync_object
  sync_object-uploaded o c os i t there e = elim (Option-cases o.cachedcopy) [
    | inl missing ↦ absurd (ground (arith, e, missing))
    | inr (h, copy) ↦ push_copy-content h i (o, (c, os)) t there (ground (arith, e, copy))
  ]
