-- ===== src/Cloud/Opening.antt =====
-- Open, Read and Write of the objects of awss3/store.go and azure/store.go.
pub mod Download
use cloudstorage.Base.{
  ℕ, zero, suc, ◌+◌, ◌-◌, ◌*◌, ◌/◌, ◌%◌, ◌^◌, ◌≤◌, ◌<◌, ◌≡◌, refl, sym, ap, ◌∙◌, ◌≢◌, ◌↔◌, ◌⊎◌, inl,
  inr, Bool, true, false, not, ◌&&◌, ◌||◌, Option, none, some, List, [], ◌∷◌, ◌++◌, map, arith,
  Bool-cases, Option-cases, present, Str, String, lit, str_eq, str_eq_iff, str_eq_refl, ltb, leb,
  ◌==◌, ==_iff, if◌then◌else◌, length, take, drop, keep, All, get_elem?, length-append, length-drop,
  drop-nil, Err, object_not_found, object_exists, iterator_done, canceled, deadline_exceeded,
  not_exist, exist, file_closed, bad_handle, eof, io, message, Outcome, ok, fail, Act, return,
  throw, attempt, ◌>>=◌, ◌>>◌, proceed, proceed-eq-ok, Outcome-cases, deferring, quietly,
  describing, described, proceed-ok,
}
use cloudstorage.Os
use cloudstorage.Os.{Os, write, read, seek_start}
use cloudstorage.LocalFs.Object.{AccessLevel, read_only, read_write, is_read_only, with_copy}
use cloudstorage.Cached.{Turn, retry, ready, filled, hand_copy, create_copy}
use cloudstorage.Cloud.Object.{Object, State, on_os, on_service, sleep}

-- io.Copy from a body that is read chunk by chunk to a local file.
module _ {C : Type 0} (read_body : ℕ → Act C Str) where
  wrote : Act (C × Os) (Unit {0}) → C → Outcome ℕ × Os → Outcome (Unit {0}) × (C × Os)
  wrote again c (ok n, os) = again (c, os)
  wrote again c (fail e, os) = (fail e, (c, os))

  got_chunk : Act (C × Os) (Unit {0}) → ℕ → Os → Outcome Str × C → Outcome (Unit {0}) × (C × Os)
  unfolding wrote
  got_chunk again h os (ok chunk, c) = wrote again c (write h chunk os)
  got_chunk again h os (fail eof, c) = (ok tt, (c, os))
  got_chunk again h os (fail e, c) = (fail e, (c, os))

  -- On fuel for the chunks
  pub copy_body : ℕ → ℕ → ℕ → Act (C × Os) (Unit {0})
  unfolding got_chunk
  copy_body zero h body s = (fail (message "out of fuel"), s)
  copy_body (suc fuel) h body (c, os) = got_chunk (copy_body fuel h body) h os (read_body body c)

-- Retries, the fuel of io.Copy, the download of an object, the reads of its body, and the service
-- after a sleep of Backoff.
module _ {C : Type 0} (retries copy_fuel : ℕ) (get_body : Object → Act C ℕ)
    (read_body : ℕ → Act C Str) (backoff : ℕ → C → C) where
  -- Whether the pass goes on behind the download.
  asked : Object → Os → Outcome ℕ × C → Outcome Bool × State C
  asked o os (ok b, c) = (ok true, (record o { body = some b }, (c, os)))
  asked o os (fail object_not_found, c) = (ok true, (o, (c, os)))
  asked o os (fail e, c) = (ok false, (o, (c, os)))

  ask : Act (State C) Bool
  unfolding asked
  ask (o, (c, os)) = elim o.body [
    | some b ↦ (ok true, (o, (c, os)))
    | none ↦ asked o os (get_body o c)
  ]

  copy_all : ℕ → ℕ → Act (State C) (Unit {0})
  unfolding copy_body
  copy_all h b (o, w) = let (r, w') = copy_body read_body copy_fuel h b w in (r, (o, w'))

  -- The body is copied from where its reader stands.
  fill_copy : ℕ → ℕ → Act (State C) Turn
  unfolding copy_all filled
  fill_copy h b = do
    on_os λ o. describing "error seeking to start of cachedcopy" (seek_start h)
    r ← attempt (copy_all h b)
    on_os λ o. filled o.cachepath h r

  fetch_body : ℕ → Act (State C) Turn
  unfolding fill_copy
  fetch_body h (o, w) = elim o.body [
    | none ↦ (ok (ready h), (o, w))
    | some b ↦ fill_copy h b (o, w)
  ]

  pull : ℕ → Bool → Act (State C) Turn
  unfolding fetch_body
  pull h true = fetch_body h
  pull h false = return (retry h)

  pass : ℕ → Act (State C) Turn
  unfolding ask pull
  pass h = do there ← ask; pull h there

  turned : (ℕ → Act (State C) ℕ) → ℕ → Bool → Turn → Act (State C) ℕ
  unfolding hand_copy
  turned again try readonly (retry h) = do sleep backoff try; again h
  turned again try readonly (ready h) = on_os (λ o. hand_copy readonly h o.cachepath)

  -- `for try := 0; try < Retries; try++`, with the number of passes left first.
  open_loop : ℕ → ℕ → Bool → ℕ → Act (State C) ℕ
  unfolding pass turned
  open_loop zero try readonly h = throw (message "fetch error retry cnt reached")
  open_loop (suc left) try readonly h =
      pass h >>= turned (open_loop left (try + 1) readonly) try readonly

  mark_open : Bool → Outcome ℕ × State C → Outcome ℕ × State C
  mark_open readonly (ok h, (o, w)) =
      (ok h, (record o { cachedcopy = some h; readonly = readonly; opened = true }, w))
  mark_open readonly (fail e, s) = (fail e, s)

  -- Open
  unfoldable pub open_object : AccessLevel → Act (State C) ℕ
  unfolding create_copy open_loop mark_open is_read_only
  open_object level (o, w) =
      if o.opened
      then (fail (message "the store object is already opened. %s"), (o, w))
      else mark_open (is_read_only level) (
          (do h ← on_os (λ p. create_copy p.cachepath); open_loop retries 0 (is_read_only level) h)
            (o, w))

  -- Read and Write
  unfoldable pub read_object : ℕ → Act (State C) Str
  read_object size = on_os λ o. with_copy (λ h. read h size) o.cachedcopy

  write_copy : Str → Act (State C) ℕ
  write_copy bytes = on_os λ o. with_copy (λ h. write h bytes) o.cachedcopy

  unfoldable pub write_object : Str → Act (State C) ℕ
  unfolding write_copy open_object
  write_object bytes (o, w) =
      if present o.cachedcopy
      then write_copy bytes (o, w)
      else (do h ← open_object read_write; write_copy bytes) (o, w)
