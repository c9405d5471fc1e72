-- ===== src/LocalFs/Object/Closing.antt =====
-- Close and Release of a local object, whatever faults their calls meet.
use cloudstorage.Base.{
  ℕ, ◌≡◌, refl, ap, ◌∙◌, ◌≢◌, inl, inr, true, false, Option, none, some, arith, Bool-cases,
  Option-cases, Str, file_closed, Outcome, ok, fail, proceed,
}
use cloudstorage.Base.Dict.{Dict}
use cloudstorage.Base.{proceed}
use cloudstorage.Os.{Os, close}
use cloudstorage.Os.View.{text, text-close, text-remove, path-close}
use cloudstorage.LocalFs.Object.{
  Object, on_files, with_copy, sync_copy, unless_closed, close_copy, sync_back, drop_copy, closing,
  close_object,
}

-- What a close of the cached copy leaves of the files.
abbrev copy_closed : Object → Os → Os
copy_closed o os = (with_copy close o.cachedcopy os).1

copy_closed-text : (c : Option ℕ) (os : Os) (p : Str) → text (with_copy close c os).1 p ≡ text os p
copy_closed-text none os p = refl
copy_closed-text (some h) os p = text-close os p h

unless_closed-state : (x : Outcome (Unit {0}) × (Object × Os)) → (unless_closed x).1 ≡ x.1
unfolding unless_closed
unless_closed-state (ok a, s) = refl
unless_closed-state (fail file_closed, s) = refl
unless_closed-state (fail _, s) = refl

module _ (marshal : Option (Dict Str) → Str) where
  close_object-opened : (o : Object) (os : Os) → (close_object marshal (o, os)).1.0.opened ≡ false
  unfolding close_object drop_copy
  close_object-opened o os = ground arith

  close_object-closed :
      (o : Object) (os : Os) → o.opened ≡ false → close_object marshal (o, os) ≡ (ok tt, (o, os))
  unfolding close_object
  close_object-closed o os h = rw (h, close_object)

  -- After Close the object is not open, whatever failed in between; another Close succeeds and
  -- changes nothing.
  pub close_object_idem :
      (s : Object × Os)
      → ((close_object marshal s).1.0.opened ≡ false)
        × (close_object marshal (close_object marshal s).1 ≡ (ok tt, (close_object marshal s).1))
  close_object_idem (o, os) =
      let shut = close_object-opened o os in
      let t = (close_object marshal (o, os)).1 in (shut, close_object-closed t.0 t.1 shut)

  close_copy-state : (o : Object) (os : Os) → (close_copy (o, os)).1 ≡ (o, copy_closed o os)
  unfolding close_copy
  close_copy-state o os = unless_closed-state (on_files (λ p. with_copy close p.cachedcopy) (o, os))

  sync_back-readonly :
      (o : Object) (os : Os) → o.readonly ≡ true → sync_back marshal (o, os) ≡ (ok tt, (o, os))
  unfolding sync_back
  sync_back-readonly o os h = ground arith

  sync_copy-readonly :
      (o : Object) (os : Os) → o.readonly ≡ true → sync_copy (o, os) ≡ (ok tt, (o, os))
  unfolding sync_copy
  sync_copy-readonly o os h = ground arith

  proceed-back :
      (x : Outcome (Unit {0}) × (Object × Os)) (o : Object) (os : Os)
      → o.readonly ≡ true
      → x.1 ≡ (o, os)
      → (proceed (λ _. sync_back marshal) x).1 ≡ (o, os)
  proceed-back (ok a, s) o os h e =
      rw e (ap (λ (y : Outcome (Unit {0}) × (Object × Os)). y.1) (sync_back-readonly o os h))
  proceed-back (fail x, s) o os h e = e

  closing-readonly :
      (o : Object) (os : Os)
      → o.readonly ≡ true
      → (closing marshal (o, os)).1 ≡ (o, copy_closed o os)
  unfolding closing
  closing-readonly o os h =
      rw (sync_copy-readonly o os h)
        (proceed-back (close_copy (o, os)) o (copy_closed o os) h (close_copy-state o os))

  -- The path is not that of the cached copy, if there is one. The copy is removed where its handle says that it is.
  abbrev CopyAt : Object → Os → Str → Type 0
  CopyAt o os p = (h : ℕ) → o.cachedcopy ≡ some h → (os.handles h).path ≢ p

  drop_copy-text :
      (o : Object) (os : Os) (p : Str) → CopyAt o os p → text (drop_copy (o, os)).1.1 p ≡ text os p
  unfolding drop_copy
  drop_copy-text o os p h = elim (Option-cases o.cachedcopy) [
    | inl e ↦ rw e
    | inr (k, e) ↦ rw e (text-remove os p (os.handles k).path (h k e))
  ]

  close_object-body :
      (o : Object) (os : Os)
      → o.opened ≡ true
      → (close_object marshal (o, os)).1 ≡ (drop_copy (closing marshal (o, os)).1).1
  unfolding close_object
  close_object-body o os h = rw (h, close_object)

  copy_closed-path :
      (c : Option ℕ) (os : Os) (k : ℕ)
      → ((with_copy close c os).1.handles k).path ≡ (os.handles k).path
  copy_closed-path none os k = refl
  copy_closed-path (some h) os k = path-close os h k

  -- Close of an object that was opened for reading, whatever faults there are, leaves the file at
  -- every path as it was that is not the path of the handle of its cached copy.
  pub close_object-readonly :
      (o : Object) (os : Os) (p : Str)
      → o.readonly ≡ true
      → CopyAt o os p
      → text (close_object marshal (o, os)).1.1 p ≡ text os p
  close_object-readonly o os p h away = elim (Bool-cases o.opened) [
    | inl opened ↦
        let os' = copy_closed o os in
        ap (λ (s : Object × Os). text s.1 p) (close_object-body o os opened)
        ∙ ap (λ (s : Object × Os). text (drop_copy s).1.1 p) (closing-readonly o os h)
        ∙ drop_copy-text o os' p (λ k e. rw (copy_closed-path o.cachedcopy os k) (away k e))
        ∙ copy_closed-text o.cachedcopy os p
    | inr shut ↦
        ap (λ (x : Outcome (Unit {0}) × (Object × Os)). text x.1.1 p)
          (close_object-closed o os shut)
  ]
