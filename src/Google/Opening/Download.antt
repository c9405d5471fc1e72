-- ===== src/Google/Opening/Download.antt =====
-- The loop of Open of google/store.go, over the objects that a service has.
use cloudstorage.Base.{
  ℕ, zero, suc, ◌+◌, ◌≡◌, refl, sym, ap, ◌∙◌, inl, inr, Bool, Option, none, some, [], arith,
  Option-cases, Str, Err, not_exist, Outcome, ok, fail, Act, ◌>>=◌, proceed, proceed-eq-ok,
  Outcome-cases, describing, described-eq-ok,
}
use cloudstorage.Os.{Os, truncating, open_file, mkdir_all}
use cloudstorage.FileHelper.{ensure_dir}
use cloudstorage.Strings.Paths.{dir}
use cloudstorage.LocalFs.Object.{AccessLevel, is_read_only}
use cloudstorage.Google.Client.{Attrs, Client}
use cloudstorage.Google.Object.{Object, State, on_os, sleep}
use cloudstorage.Cached.{Turn, retry, ready, hand_copy, create_copy}
use cloudstorage.Google.Opening.{
  fill_copy, looked, look, got_body, fetch_body, pull, pass, turned, open_loop, mark_open,
  open_object,
}
use cloudstorage.Os.Holds.{Holds, Holds-open_file}
use cloudstorage.Google.Opening.Content.{Filled, fill_copy-Filled, Holds-hand_copy}

-- The documented behaviour of the calls that read: they change no object, and a body that is read
-- to its end is the object. Nobody else writes to the bucket meanwhile.
pub record IsStored {C : Type 0} (client : Client C) (backoff : ℕ → C → C) : Type 0 where
  pub content : C → Str → Str → Option Str
  pub content-attrs :
      (bucket name : Str) (c : C) → content (client.attrs bucket name c).1 ≡ content c
  pub content-open_body :
      (bucket name : Str) (c : C) → content (client.open_body bucket name c).1 ≡ content c
  pub content-backoff : (try : ℕ) (c : C) → content (backoff try c) ≡ content c
  pub attrs-missing :
      (bucket name : Str) (c : C)
      → (client.attrs bucket name c).0 ≡ fail not_exist
      → content c bucket name ≡ none
  pub body :
      (bucket name bytes : Str) (c : C)
      → (client.open_body bucket name c).0 ≡ ok (bytes, none)
      → content c bucket name ≡ some bytes

abbrev pub or_empty : Option Str → Str
or_empty none = []
or_empty (some text) = text

module _ {C : Type 0} (gcs_retries : ℕ) (client : Client C) (backoff : ℕ → C → C)
    (L : IsStored client backoff) (bucket name path : Str) (stored : Option Str) where
  -- The object and the service are as they were, but for what is known of the object.
  abbrev Same : State C → Type 0
  Same (p, (c, os)) =
      (p.bucket ≡ bucket)
      × (p.name ≡ name)
      × (p.cachepath ≡ path)
      × (L.content c bucket name ≡ stored)

  -- What a pass ends with: the whole object in the copy, or an empty copy.
  abbrev Pulled : Outcome Turn × State C → Type 0
  Pulled (ok (ready k), (p, (c, os))) = Same (p, (c, os)) × Holds path k (or_empty stored) os
  Pulled (ok (retry k), (p, (c, os))) = Same (p, (c, os)) × Holds path k [] os
  Pulled (fail e, s) = Unit

  Filled-Pulled :
      (bytes : Str) (end : Option Err) (p : Object) (c : C) (x : Outcome Turn × Os)
      → Same (p, (c, x.1))
      → (end ≡ none → stored ≡ some bytes)
      → Filled path bytes end x
      → Pulled (x.0, (p, (c, x.1)))
  Filled-Pulled bytes end p c (ok (ready k), os) same h f = (same, rw (h f.0) (f.1))
  Filled-Pulled bytes end p c (ok (retry k), os) same h f = (same, f)
  Filled-Pulled bytes end p c (fail e, os) same h f = tt

  got_body-Pulled :
      (h : ℕ) (p : Object) (os : Os) (x : Outcome (Str × Option Err)) (c : C)
      → Same (p, (c, os))
      → ((bytes : Str) → x ≡ ok (bytes, none) → stored ≡ some bytes)
      → Holds path h [] os
      → Pulled (got_body gcs_retries client backoff h p os (x, c))
  unfolding got_body
  got_body-Pulled h p os (fail e) c same w st = (same, st)
  got_body-Pulled h p os (ok (bytes, end)) c same w st =
      Filled-Pulled bytes end p c (fill_copy h bytes end p os) same (λ e. w bytes (rw e))
        (fill_copy-Filled path h bytes end p os (same.2) st)

  fetch_body-Pulled :
      (h : ℕ) (a : Attrs) (p : Object) (c : C) (os : Os)
      → p.google_object ≡ some a
      → Same (p, (c, os))
      → Holds path h [] os
      → Pulled (fetch_body gcs_retries client backoff h (p, (c, os)))
  unfolding fetch_body
  fetch_body-Pulled h a p c os there same st =
      let (x, c') = client.open_body p.bucket p.name c in
      let kept =
        ap (λ (f : Str → Str → Option Str). f bucket name)
          (L.content-open_body p.bucket p.name c) in
      rw there (
        got_body-Pulled h p os x c' (same.0, same.1, same.2, kept ∙ same.3)
          (λ bytes e. sym (same.3) ∙ rw (same.0, same.1) at (L.body p.bucket p.name bytes c e)) st)

  pull-Pulled :
      (h : ℕ) (p : Object) (c : C) (os : Os) (x : Outcome Attrs) (c' : C)
      → p.google_object ≡ none
      → Same (p, (c', os))
      → (x ≡ fail not_exist → stored ≡ none)
      → Holds path h [] os
      → Pulled (
          proceed
            (pull gcs_retries client backoff h)
            (looked gcs_retries client backoff p os (x, c')))
  unfolding looked pull
  pull-Pulled h p c os (ok a) c' new same miss st =
      fetch_body-Pulled h a (record p { google_object = some a }) c' os refl same st
  pull-Pulled h p c os (fail not_exist) c' new same miss st =
      unfold fetch_body in rw new (same, rw (miss refl) st)
  pull-Pulled h p c os (fail _) c' new same miss st = (same, st)

  pass-Pulled :
      (h : ℕ) (p : Object) (c : C) (os : Os)
      → Same (p, (c, os))
      → Holds path h [] os
      → Pulled (pass gcs_retries client backoff h (p, (c, os)))
  unfolding pass look
  pass-Pulled h p c os same st = elim (Option-cases p.google_object) [
    | inl new ↦
        let (x, c') = client.attrs p.bucket p.name c in
        let kept =
          ap (λ (f : Str → Str → Option Str). f bucket name) (L.content-attrs p.bucket p.name c) in
        rw new (
          pull-Pulled h p c os x c' new (same.0, same.1, same.2, kept ∙ same.3)
            (λ e. sym (same.3) ∙ rw (same.0, same.1) at (L.attrs-missing p.bucket p.name c e)) st)
    | inr (a, there) ↦ unfold pull in rw there (fetch_body-Pulled h a p c os there same st)
  ]

  -- The copy on the handle is the whole object, at its start.
  abbrev Copied : ℕ → State C → Type 0
  Copied k (p, (c, os)) =
      Same (p, (c, os)) × Holds path k (or_empty stored) os × ((os.handles k).offset ≡ 0)

  handed :
      (readonly : Bool) (j k : ℕ) (q : Str) (os : Os)
      → q ≡ path
      → Holds path j (or_empty stored) os
      → (hand_copy readonly j q os).0 ≡ ok k
      → Holds path k (or_empty stored) (hand_copy readonly j q os).1
        × (((hand_copy readonly j q os).1.handles k).offset ≡ 0)
  handed readonly j k q os at st e =
      rw at (Holds-hand_copy path readonly j k (or_empty stored) os st (rw at at e))

  open_loop-Copied :
      (left try : ℕ) (readonly : Bool) (h k : ℕ) (s t : State C)
      → Same s
      → Holds path h [] s.1.1
      → open_loop gcs_retries client backoff left try readonly h s ≡ (ok k, t)
      → Copied k t
  unfolding open_loop
  open_loop-Copied zero try readonly h k s t same st e = cc
  open_loop-Copied (suc left) try readonly h k s t same st e =
      elim (Outcome-cases (pass gcs_retries client backoff h s)) [
        | inl (retry j, s', f) ↦
            let left_by = rw f at (pass-Pulled h s.0 s.1.0 s.1.1 same st) in
            let again : open_loop gcs_retries client backoff left (try + 1) readonly j
                  (sleep backoff try s').1
                ≡ (ok k, t) =
              unfold turned in (rw f at e) in
            open_loop-Copied left (try + 1) readonly j k (sleep backoff try s').1 t
              (
                left_by.0.0,
                left_by.0.1,
                left_by.0.2,
                ap (λ (f : Str → Str → Option Str). f bucket name) (L.content-backoff try s'.1.0)
                    ∙ left_by.0.3,
              )
              (left_by.1) again
        | inl (ready j, s', f) ↦
            let left_by = rw f at (pass-Pulled h s.0 s.1.0 s.1.1 same st) in
            let last : on_os (λ o. hand_copy readonly j o.cachepath) s' ≡ (ok k, t) =
              unfold turned in (rw f at e) in
            let held =
              handed readonly j k s'.0.cachepath s'.1.1 (left_by.0.2) (left_by.1)
                (ap (λ (x : Outcome ℕ × State C). x.0) last) in
            rw (sym (ap (λ (x : Outcome ℕ × State C). x.1) last)) (left_by.0, held.0, held.1)
        | inr (x, s', f) ↦ absurd (let stuck : (fail x, s') ≡ (ok k, t) = rw f at e in cc)
      ]

create_copy-Holds :
    (path : Str) (os : Os) (h : ℕ) (os' : Os)
    → create_copy path os ≡ (ok h, os')
    → Holds path h [] os'
unfolding create_copy
create_copy-Holds path os h os' e =
    let create : Unit {0} → Act Os ℕ =
      λ u. describing "error occurred creating file." (open_file path truncating) in
    let ensure = describing "error occurred creating cachedcopy's dir." (ensure_dir path) in
    let made_dirs = describing "error occurred creating cachedcopy dir." (mkdir_all (dir path)) in
    let (u, os1, e1, f1) = proceed-eq-ok (λ (u : Unit {0}). ensure >>= create) (made_dirs os) e in
    let (v, os2, e2, f2) = proceed-eq-ok create (ensure os1) f1 in
    let made =
      described-eq-ok "error occurred creating file." (open_file path truncating os2) h os' f2 in
    rw made at (Holds-open_file path h os2 (ap (λ (x : Outcome ℕ × Os). x.0) made))

-- What Open behind its test leaves.
module _ {C : Type 0} (gcs_retries : ℕ) (client : Client C) (backoff : ℕ → C → C)
    (L : IsStored client backoff) where
  mark_open-ok :
      (readonly : Bool) (x : Outcome ℕ × State C) (k : ℕ) (t : State C)
      → mark_open gcs_retries client backoff readonly x ≡ (ok k, t)
      → (x ≡ (ok k, x.1)) × (t.1 ≡ x.1.1)
  unfolding mark_open
  mark_open-ok readonly (ok h, (o, w)) k t e = (
    ap (λ (r : Outcome ℕ). (r, (o, w))) (ap (λ (x : Outcome ℕ × State C). x.0) e),
    sym (ap (λ (x : Outcome ℕ × State C). x.1.1) e),
  )
  mark_open-ok readonly (fail y, s) k t e = absurd (let stuck : (fail y, s) ≡ (ok k, t) = e in cc)

  -- Open that succeeds, whatever calls failed before, gives out a handle at the start of the cached
  -- copy, and that copy is the object as it is in the bucket, or empty if the bucket has none, where
  -- nobody writes to the bucket meanwhile.
  pub open_object-content :
      (level : AccessLevel) (o : Object) (c : C) (os : Os) (k : ℕ) (t : State C)
      → open_object gcs_retries client backoff level (o, (c, os)) ≡ (ok k, t)
      → Holds o.cachepath k (or_empty (L.content t.1.0 o.bucket o.name)) t.1.1
        × ((t.1.1.handles k).offset ≡ 0)
  unfolding open_object
  open_object-content level o c os k t e =
      let loop = open_loop gcs_retries client backoff gcs_retries 0 (is_read_only level) in
      let start = on_os (λ p. create_copy p.cachepath) (o, (c, os)) in
      let marked : mark_open gcs_retries client backoff (is_read_only level) (proceed loop start)
          ≡ (ok k, t) =
        ground arith in
      let (looped, world) = mark_open-ok (is_read_only level) (proceed loop start) k t marked in
      elim (Outcome-cases (create_copy o.cachepath os)) [
        | inl (h, os', f) ↦
            let s = (loop h (o, (c, os'))).1 in
            let ended : t.1 ≡ s.1 = rw f at world in
            let copied =
              open_loop-Copied gcs_retries client backoff L o.bucket o.name o.cachepath
                (L.content c o.bucket o.name) gcs_retries 0 (is_read_only level) h k (o, (c, os')) s
                (refl, refl, refl, refl) (create_copy-Holds o.cachepath os h os' f)
                (rw f at looped) in
            rw (ended, copied.0.3) (copied.1, copied.2)
        | inr (x, os', f) ↦
            absurd
              (let stuck : (fail x, (o, (c, os'))) ≡ (ok k, (o, (c, os'))) = rw f at looped in cc)
      ]
