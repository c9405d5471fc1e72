-- ===== src/Google/Pushing/Content.antt =====
-- Sync of the object of google/store.go brings the cached copy to the bucket.
use cloudstorage.Base.{
  ℕ, zero, suc, ◌+◌, ◌≡◌, refl, ap, ◌∙◌, inl, inr, Bool, true, false, Option, none, some, [], ◌++◌,
  arith, Str, Err, message, Outcome, ok, fail, attempt, ◌>>=◌, proceed, Outcome-cases,
}
use cloudstorage.Base.Dict
use cloudstorage.Base.Dict.{Dict}
use cloudstorage.Os.{Os, file, updating, open_file, seek_start, drain, close}
use cloudstorage.Os.Holds.{Whole}
use cloudstorage.Os.Reading.{drain-seek_start, inode-seek_start, inode-drain, inode-open_file}
use cloudstorage.Google.Client.{Client}
use cloudstorage.Google.Object.{Object, State, on_os, sleep}
use cloudstorage.Google.Pushing.{
  typed, kept_type, begin_writer, send_all, sent, upload, uploaded, sync_loop, push_copy,
  sync_object,
}

-- The documented behaviour of a writer: an object has the bytes that were sent on it once it is
-- closed without an error.
pub record IsBucket {C : Type 0} (client : Client C) : Type 0 where
  pub content : C → Str → Str → Option Str
  pub pending : C → ℕ → Str
  pub target : C → ℕ → Str × Str
  pub pending-start_writer :
      (bucket name : Str) (md : Option (Dict Str × Str)) (if_not_exists : Bool) (c : C)
      → let (wc, c') = client.start_writer bucket name md if_not_exists c in
        (pending c' wc ≡ []) × (target c' wc ≡ (bucket, name))
  pub pending-send :
      (wc : ℕ) (bytes : Str) (c : C)
      → (client.send wc bytes c).0 ≡ ok tt
      → (pending (client.send wc bytes c).1 wc ≡ pending c wc ++ bytes)
        × (target (client.send wc bytes c).1 wc ≡ target c wc)
  pub content-close_writer :
      (wc : ℕ) (c : C)
      → (client.close_writer wc c).0 ≡ ok tt
      → content (client.close_writer wc c).1 (target c wc).0 (target c wc).1 ≡ some (pending c wc)

module _ {C : Type 0} (gcs_retries : ℕ) (type_by_extension : Str → Str) (client : Client C)
    (backoff : ℕ → C → C) (L : IsBucket client) where
  abbrev Stays : Object → Str → ℕ → State C → Type 0
  Stays o text h (p, (c, os)) =
      (p.bucket ≡ o.bucket) × (p.name ≡ o.name) × (os.inodes (os.handles h).inode ≡ text)

  -- A pass has put the text, or the copy is as it was.
  abbrev Passed : Object → Str → ℕ → Outcome Bool × State C → Type 0
  Passed o text h (ok true, (p, (c, os))) = L.content c o.bucket o.name ≡ some text
  Passed o text h (ok false, s) = Stays o text h s
  Passed o text h (fail e, s) = Unit

  sent-Passed :
      (o p : Object) (h wc : ℕ) (text : Str) (r : Outcome (Unit {0})) (c : C) (os : Os)
      → Stays o text h (p, (c, os))
      → (r ≡ ok tt → (L.pending c wc ≡ text) × (L.target c wc ≡ (o.bucket, o.name)))
      → Passed o text h (sent gcs_retries type_by_extension client backoff wc r (p, (c, os)))
  unfolding sent
  sent-Passed o p h wc text (ok tt) c os st f = elim (Outcome-cases (client.close_writer wc c)) [
    | inl (tt, c', e) ↦
        let put = L.content-close_writer wc c (ap (λ (x : Outcome (Unit {0}) × C). x.0) e) in
        rw e (rw (e, (f refl).0, (f refl).1) at put)
    | inr (x, c', e) ↦ rw e st
  ]
  sent-Passed o p h wc text (fail e) c os st f = st

  -- Behind the read of the copy.
  send-Passed :
      (o p : Object) (h wc : ℕ) (text : Str) (r : Outcome (Str × Option Err)) (c : C) (os : Os)
      → Stays o text h (p, (c, os))
      → Whole text r
      → (L.pending c wc ≡ []) × (L.target c wc ≡ (o.bucket, o.name))
      → Passed o text h (
          proceed
            (λ t.
              attempt (send_all gcs_retries type_by_extension client backoff wc t)
              >>= sent gcs_retries type_by_extension client backoff wc)
            (r, (p, (c, os))))
  unfolding send_all
  send-Passed o p h wc text (fail e) c os st w new = tt
  send-Passed o p h wc text (ok (t, none)) c os st w new =
      sent-Passed o p h wc text (client.send wc t c).0 (client.send wc t c).1 os st
        (λ e. let both = L.pending-send wc t c e in (both.0 ∙ rw new.0 w, both.1 ∙ new.1))
  send-Passed o p h wc text (ok (t, some x)) c os st w new =
      elim (Outcome-cases (client.send wc t c)) [
        | inl (u, c', e) ↦ rw e (sent-Passed o p h wc text (fail x) c' os st (λ e. cc))
        | inr (y, c', e) ↦ rw e (sent-Passed o p h wc text (fail y) c' os st (λ e. cc))
      ]

  upload-Passed :
      (o : Object) (h : ℕ) (text : Str) (s : State C)
      → Stays o text h s
      → Passed o text h (upload gcs_retries type_by_extension client backoff h s)
  unfolding upload begin_writer
  upload-Passed o h text (p, (c, os)) st =
      let (wc, c') =
        client.start_writer p.bucket p.name (typed gcs_retries type_by_extension client backoff p)
          false c in
      let fresh =
        L.pending-start_writer p.bucket p.name
          (typed gcs_retries type_by_extension client backoff p) false c in
      elim (Outcome-cases (seek_start h os)) [
        | inl (u, os', e) ↦
            let whole =
              rw (e, st.2) at
                (drain-seek_start h os u (ap (λ (x : Outcome (Unit {0}) × Os). x.0) e)) in
            let same = rw (e, st.2) at (inode-seek_start h os) in
            rw e (
              send-Passed o
                (record p {
                  metadata =
                      kept_type gcs_retries type_by_extension client backoff
                        (typed gcs_retries type_by_extension client backoff p);
                })
                h wc text (drain h os').0 c' (drain h os').1 (st.0, st.1, inode-drain h os' ∙ same)
                whole (fresh.0, fresh.1 ∙ rw (st.0, st.1)))
        | inr (x, os', e) ↦ rw e tt
      ]

  -- What the loop leaves, where it ends well.
  sync_loop-put :
      (o : Object) (h : ℕ) (text : Str) (left try : ℕ) (s t : State C)
      → Stays o text h s
      → sync_loop gcs_retries type_by_extension client backoff left try h s ≡ (ok tt, t)
      → L.content t.1.0 o.bucket o.name ≡ some text
  unfolding sync_loop
  sync_loop-put o h text zero try s t st e = cc
  sync_loop-put o h text (suc left) try s t st e =
      elim (Outcome-cases (upload gcs_retries type_by_extension client backoff h s)) [
        | inl (true, s', f) ↦
            let put = rw f at (upload-Passed o h text s st) in
            let ends : (ok tt, s') ≡ (ok tt, t) = unfold uploaded in (rw f at e) in
            rw (ap (λ (x : Outcome (Unit {0}) × State C). x.1) ends) at put
        | inl (false, s', f) ↦
            let again : sync_loop gcs_retries type_by_extension client backoff left (try + 1) h
                  (sleep backoff try s').1
                ≡ (ok tt, t) =
              unfold uploaded in (rw f at e) in
            sync_loop-put o h text left (try + 1) (sleep backoff try s').1 t
              (rw f at (upload-Passed o h text s st)) again
        | inr (x, s', f) ↦ (let stuck : (fail x, s') ≡ (ok tt, t) = rw f at e in cc)
      ]

  -- Sync of an object, where it ends well, leaves in the bucket what is in the cached copy, whatever
  -- calls failed before.
  pub sync_object-content :
      (o : Object) (c : C) (os : Os) (i : ℕ) (t : State C)
      → Dict.lookup o.cachepath os.entries ≡ some (file i)
      → sync_object gcs_retries type_by_extension client backoff (o, (c, os)) ≡ (ok tt, t)
      → L.content t.1.0 o.bucket o.name ≡ some (os.inodes i)
  unfolding sync_object push_copy
  sync_object-content o c os i t there e =
      let pushed : push_copy gcs_retries type_by_extension client backoff (o, (c, os))
          ≡ (ok tt, t) =
        ground arith in
      elim (Outcome-cases (open_file o.cachepath updating os)) [
        | inl (h, os', f) ↦
            let loop =
              sync_loop gcs_retries type_by_extension client backoff gcs_retries 0 h
                (o, (c, os')) in
            let whole =
              rw f at
                (inode-open_file o.cachepath os i h there (ap (λ (x : Outcome ℕ × Os). x.0) f)) in
            let ends : (loop.0, (on_os (λ p. close h) loop.1).1) ≡ (ok tt, t) = rw f at pushed in
            let put =
              sync_loop-put o h (os.inodes i) gcs_retries 0 (o, (c, os')) loop.1 (refl, refl, whole)
                (ap (λ (r : Outcome (Unit {0})). (r, loop.1))
                  (ap (λ (x : Outcome (Unit {0}) × State C). x.0) ends)) in
            rw (ap (λ (x : Outcome (Unit {0}) × State C). x.1.1.0) ends) at put
        | inr (x, os', f) ↦ absurd (
            let stuck : (fail (message "couldn't open localfile for sync'ing."), (o, (c, os')))
                ≡ (ok tt, t) =
              rw f at pushed in
            cc)
      ]
