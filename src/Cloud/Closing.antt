-- ===== src/Cloud/Closing.antt =====
-- Close and Release of the objects of awss3/store.go and azure/store.go. Sync is a parameter, since
-- each of the two has its own.
pub mod Reset
use cloudstorage.Base.{
  ℕ, false, not, ◌&&◌, none, some, if◌then◌else◌, file_closed, Outcome, ok, fail, Act, ◌>>◌,
  deferring, quietly,
}
use cloudstorage.Os.{sync, close, remove}
use cloudstorage.LocalFs.Object.{with_copy}
use cloudstorage.Cloud.Object.{State, on_os}

module _ {C : Type 0} where
  -- An error that says that the file was closed before is none.
  unless_closed : Outcome (Unit {0}) × State C → Outcome (Unit {0}) × State C
  unless_closed (fail file_closed, s) = (ok tt, s)
  unless_closed x = x

  drop_copy : Act (State C) (Unit {0})
  drop_copy (o, (c, os)) =
      (ok tt, (record o { cachedcopy = none; opened = false }, (c, (remove o.cachepath os).1)))

  sync_copy : Act (State C) (Unit {0})
  sync_copy (o, w) =
      if o.readonly then (ok tt, (o, w)) else on_os (λ p. with_copy sync p.cachedcopy) (o, w)

  close_copy : Act (State C) (Unit {0})
  unfolding unless_closed
  close_copy s = unless_closed (on_os (λ o. with_copy close o.cachedcopy) s)

  module _ (sync_object : Act (State C) (Unit {0})) where
    sync_back : Act (State C) (Unit {0})
    sync_back (o, w) = if o.opened && not o.readonly then sync_object (o, w) else (ok tt, (o, w))

    closing : Act (State C) (Unit {0})
    unfolding sync_copy close_copy sync_back
    closing = do sync_copy; close_copy; sync_back

    -- Close
    unfoldable pub close_object : Act (State C) (Unit {0})
    unfolding closing drop_copy
    close_object (o, w) =
        if not o.opened then (ok tt, (o, w)) else deferring drop_copy closing (o, w)

  release_copy : ℕ → Act (State C) (Unit {0})
  release_copy h = do quietly (on_os λ o. close h); on_os λ o. remove o.cachepath

  -- Release: the object stays open, with the handle of its copy.
  unfoldable pub release_object : Act (State C) (Unit {0})
  unfolding release_copy
  release_object (o, w) = elim o.cachedcopy [
    | some h ↦ release_copy h (o, w)
    | none ↦ quietly (on_os λ p. remove p.cachepath) (o, w)
  ]
