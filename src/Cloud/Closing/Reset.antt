-- ===== src/Cloud/Closing/Reset.antt =====
-- What Close of an object of awss3/store.go and azure/store.go leaves.
use cloudstorage.Base.{◌≡◌, refl, ◌∙◌, true, false, none, arith, ok, Act}
use cloudstorage.Os.{Os}
use cloudstorage.Cloud.Object.{Object, State}
use cloudstorage.Cloud.Closing.{
  unless_closed, drop_copy, sync_copy, close_copy, sync_back, closing, close_object,
}

module _ {C : Type 0} (sync_object : Act (State C) (Unit {0})) where
  close_object-opened :
      (o : Object) (w : C × Os) → (close_object sync_object (o, w)).1.0.opened ≡ false
  unfolding close_object drop_copy
  close_object-opened o w = ground arith

  close_object-closed :
      (o : Object) (w : C × Os)
      → o.opened ≡ false
      → close_object sync_object (o, w) ≡ (ok tt, (o, w))
  unfolding close_object
  close_object-closed o w h = rw (h, close_object) refl

  closing-readonly :
      (o : Object) (c : C) (os : Os)
      → o.readonly ≡ true
      → (closing sync_object (o, (c, os))).1.1.0 ≡ c
  unfolding closing sync_copy close_copy sync_back unless_closed
  closing-readonly o c os h = ground arith

  dropped-service : (s : State C) → (drop_copy s).1.1.0 ≡ s.1.0
  unfolding drop_copy
  dropped-service (o, (c, os)) = refl

  close_object-readonly :
      (o : Object) (c : C) (os : Os)
      → o.readonly ≡ true
      → (close_object sync_object (o, (c, os))).1.1.0 ≡ c
  unfolding close_object
  close_object-readonly o c os h =
      let run = closing sync_object (o, (c, os)) in
      let there = dropped-service run.1 ∙ closing-readonly o c os h in ground (arith, there)

  close_object-dropped :
      (o : Object) (w : C × Os)
      → o.opened ≡ true
      → (close_object sync_object (o, w)).1.0.cachedcopy ≡ none
  unfolding close_object drop_copy
  close_object-dropped o w h = ground arith

  -- After Close, whatever it meets, an S3 or Azure object is not open, and has no cached copy if it was
  -- open; another Close succeeds and changes nothing. Close of an object that was opened for reading
  -- leaves the service as it was.
  pub close_object_lem :
      (o : Object) (c : C) (os : Os)
      → let s = (close_object sync_object (o, (c, os))).1 in
        (s.0.opened ≡ false)
        × (o.opened ≡ true → s.0.cachedcopy ≡ none)
        × (close_object sync_object s ≡ (ok tt, s))
        × (o.readonly ≡ true → s.1.0 ≡ c)
  close_object_lem o c os =
      let s = (close_object sync_object (o, (c, os))).1 in
      let shut = close_object-opened o (c, os) in
      (
        shut,
        close_object-dropped o (c, os),
        close_object-closed s.0 s.1 shut,
        close_object-readonly o c os,
      )
