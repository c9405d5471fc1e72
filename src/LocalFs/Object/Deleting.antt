-- ===== src/LocalFs/Object/Deleting.antt =====
-- What Delete of an object of localfs/store.go leaves, whatever faults it meets.
use cloudstorage.Base.{
  ◌≡◌, refl, sym, ap, ◌∙◌, ◌≢◌, inl, inr, Bool, true, false, none, ◌++◌, arith, Str, lit, length,
  length-append, Err, ◌⊎◌, Outcome, ok, fail, Outcome-cases,
}
use cloudstorage.Os.{Os, remove, exists}
use cloudstorage.Os.View.{text, text-exists, text-remove, text-remove_ok}
use cloudstorage.LocalFs.Object.{
  Object, metadata_path, on_files, release_object, remove_if, delete_object,
}

remove_if-text :
    (q p : Str) (there : Bool) (os : Os) → q ≢ p → text (remove_if q there os).1 p ≡ text os p
unfolding remove_if
remove_if-text q p true os ne = text-remove os p q ne
remove_if-text q p false os ne = refl

longer : (p : Str) → p ++ lit ".metadata" ≢ p
longer p e =
    let same : length (p ++ lit ".metadata") ≡ length p = ap length e in
    let more = length-append p (lit ".metadata") in absurd (omega arith)

-- Delete of an object that has no cached copy
module _ (o : Object) (os : Os) (new : o.cachedcopy ≡ none) where
  abbrev os1 : Os
  os1 = (remove o.cachepath os).1

  released : release_object (o, os) ≡ (ok tt, (o, os1))
  unfolding release_object
  released = rw new refl

  deleted-fail :
      (e : Err) (v : Os)
      → remove o.storepath os1 ≡ (fail e, v)
      → delete_object (o, os) ≡ (fail e, (o, v))
  unfolding delete_object
  deleted-fail e v broke = rw (released, broke) refl

  deleted-ok :
      (u : Unit {0}) (b : Bool) (v v' : Os)
      → remove o.storepath os1 ≡ (ok u, v)
      → exists (metadata_path o) v ≡ (ok b, v')
      → delete_object (o, os) ≡ on_files (λ o. remove_if (metadata_path o) b) (o, v')
  unfolding delete_object
  deleted-ok u b v v' went looked = rw (released, went, looked) refl

  -- Up to the removal of the metadata
  abbrev Deleted : Os → Type 0
  Deleted v =
      ((e : Err) × (remove o.storepath os1 ≡ (fail e, v))
        × (delete_object (o, os) ≡ (fail e, (o, v))))
      ⊎ ((u : Unit {0}) × (b : Bool) × (remove o.storepath os1 ≡ (ok u, v))
          × (delete_object (o, os)
              ≡ on_files (λ o. remove_if (metadata_path o) b) (o, (exists (metadata_path o) v).1)))

  deleted : Deleted (remove o.storepath os1).1
  unfolding exists
  deleted = elim (Outcome-cases (remove o.storepath os1)) [
    | inr (e, v, broke) ↦ rw broke (inl (e, refl, deleted-fail e v broke))
    | inl (u, v, went) ↦ rw went (inr (u, _, refl, deleted-ok u _ v _ went refl))
  ]

  -- A file elsewhere keeps its text.
  pub delete_object-elsewhere :
      (p : Str)
      → o.cachepath ≢ p
      → o.storepath ≢ p
      → metadata_path o ≢ p
      → text (delete_object (o, os)).1.1 p ≡ text os p
  delete_object-elsewhere p ne1 ne2 ne3 =
      let v = (remove o.storepath os1).1 in
      let before : text v p ≡ text os p =
        text-remove os1 p o.storepath ne2 ∙ text-remove os p o.cachepath ne1 in
      elim deleted [
        | inl (e, broke, stops) ↦ rw stops before
        | inr (u, b, went, goes_on) ↦ rw goes_on (
            remove_if-text (metadata_path o) p b (exists (metadata_path o) v).1 ne3
            ∙ text-exists v p (metadata_path o)
            ∙ before)
      ]

  -- Where Delete succeeds, there is no file.
  pub delete_object-gone :
      (delete_object (o, os)).0 ≡ ok tt → text (delete_object (o, os)).1.1 o.storepath ≡ none
  delete_object-gone done =
      let v = (remove o.storepath os1).1 in
      elim deleted [
        | inl (e, broke, stops) ↦ absurd (
            let stuck : fail e ≡ ok tt =
              sym (ap (λ (x : Outcome (Unit {0}) × (Object × Os)). x.0) stops) ∙ done in
            cc)
        | inr (u, b, went, goes_on) ↦ rw goes_on (
            remove_if-text (metadata_path o) o.storepath b (exists (metadata_path o) v).1
              (longer o.storepath)
            ∙ text-exists v o.storepath (metadata_path o)
            ∙ text-remove_ok os1 o.storepath (ap (λ (x : Outcome (Unit {0}) × Os). x.0) went))
      ]
