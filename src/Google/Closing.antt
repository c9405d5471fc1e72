-- ===== src/Google/Closing.antt =====
-- Close, Release and Delete of the object of google/store.go.
use cloudstorage.Base.{
  ℕ, false, not, ◌&&◌, none, some, Str, if◌then◌else◌, file_closed, message, Outcome, ok, fail, Act,
  ◌>>◌, deferring, quietly,
}
use cloudstorage.Os.{sync, close, remove}
use cloudstorage.LocalFs.Object.{with_copy}
use cloudstorage.Google.Client.{Client}
use cloudstorage.Google.Object.{State, on_os, on_service}
use cloudstorage.Google.Pushing.{sync_object}

drop_copy : {C : Type 0} → Act (State C) (Unit {0})
drop_copy (o, (c, os)) =
    (ok tt, (record o { cachedcopy = none; opened = false }, (c, (remove o.cachepath os).1)))

unless_closed : {C : Type 0} → Outcome (Unit {0}) × State C → Outcome (Unit {0}) × State C
unless_closed (fail file_closed, s) = (ok tt, s)
unless_closed (fail e, s) = (fail (message "error on sync and closing localfile. %q"), s)
unless_closed (ok u, s) = (ok u, s)

-- GCSRetries, the table of the package `mime`, the client, and the service after a sleep of Backoff.
module _ {C : Type 0} (gcs_retries : ℕ) (type_by_extension : Str → Str) (client : Client C)
    (backoff : ℕ → C → C) where
  sync_copy : Act (State C) (Unit {0})
  sync_copy (o, w) =
      if o.readonly then (ok tt, (o, w)) else on_os (λ p. with_copy sync p.cachedcopy) (o, w)

  close_copy : Act (State C) (Unit {0})
  unfolding unless_closed
  close_copy s = unless_closed (on_os (λ o. with_copy close o.cachedcopy) s)

  sync_back : Act (State C) (Unit {0})
  unfolding sync_object
  sync_back (o, w) =
      if o.opened && not o.readonly
      then sync_object gcs_retries type_by_extension client backoff (o, w)
      else (ok tt, (o, w))

  closing : Act (State C) (Unit {0})
  unfolding sync_copy close_copy sync_back
  closing = do sync_copy; close_copy; sync_back

  -- Close
  unfoldable pub close_object : Act (State C) (Unit {0})
  unfolding closing drop_copy
  close_object (o, w) = if not o.opened then (ok tt, (o, w)) else deferring drop_copy closing (o, w)

  forget_copy : Act (State C) (Unit {0})
  forget_copy (o, w) = (ok tt, (record o { cachedcopy = none; opened = false }, w))

  release_copy : ℕ → Act (State C) (Unit {0})
  unfolding forget_copy
  release_copy h = do quietly (on_os (λ o. close h)); forget_copy; on_os (λ o. remove o.cachepath)

  -- Release
  unfoldable pub release_object : Act (State C) (Unit {0})
  unfolding release_copy
  release_object (o, w) = elim o.cachedcopy [
    | some h ↦ release_copy h (o, w)
    | none ↦ quietly (on_os (λ p. remove p.cachepath)) (o, w)
  ]

  -- Delete of an object
  unfoldable pub delete_object : Act (State C) (Unit {0})
  unfolding release_object
  delete_object = do quietly release_object; on_service (λ o. client.delete_object o.bucket o.name)
