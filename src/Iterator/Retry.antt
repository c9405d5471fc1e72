-- ===== src/Iterator/Retry.antt =====
-- How often Next asks the store, and how long Backoff sleeps.
use cloudstorage.Base.{
  ℕ, zero, suc, ◌+◌, ◌-◌, ◌≤◌, ◌≡◌, ◌≢◌, Option, some, arith, Err, iterator_done, canceled,
  deadline_exceeded, Outcome, ok, fail, Act,
}
use cloudstorage.Query.{Query}
use cloudstorage.Iterator.{
  ObjectsResponse, ObjectPageIterator, done_err, return_page_next, turn_page, listed, fetch, next,
  close,
}

module _ {W O : Type 0} (list : Query O → Act W (ObjectsResponse O)) (ctx_err : W → Option Err)
    (backoff : ℕ → W → W) (calls : W → ℕ)
    (list_counts : (q : Query O) (w : W) → calls (list q w).1 ≡ calls w + 1)
    (backoff_counts : (n : ℕ) (w : W) → calls (backoff n w) ≡ calls w) where
  listed-calls :
      (again : W → Outcome O × (ObjectPageIterator O × W)) (r b : ℕ) (it : ObjectPageIterator O)
      (x : Outcome (ObjectsResponse O)) (w : W)
      → ((v : W) → calls (again v).1.1 ≤ calls v + b)
      → calls (listed list ctx_err backoff again r it (x, w)).1.1 ≤ calls w + b
  unfolding listed turn_page return_page_next
  listed-calls again r b it (ok resp) w h = ground arith
  listed-calls again r b it (fail iterator_done) w h = omega arith
  listed-calls again r b it (fail canceled) w h = omega arith
  listed-calls again r b it (fail deadline_exceeded) w h = omega arith
  listed-calls again zero b it (fail _) w h = omega arith
  listed-calls again (suc r) b it (fail _) w h =
      omega (arith, h (backoff (4 - r) w), backoff_counts (4 - r) w)

  fetch-calls :
      (r : ℕ) (it : ObjectPageIterator O) (w : W)
      → calls (fetch list ctx_err backoff r it w).1.1 ≤ calls w + r + 1
  unfolding fetch
  fetch-calls zero it w = omega (
    arith,
    list_counts it.q w,
    listed-calls (λ v. (fail canceled, (it, v))) zero 0 it (list it.q w).0 (list it.q w).1
        (λ v. omega arith),
  )
  fetch-calls (suc r) it w = omega (
    arith,
    list_counts it.q w,
    listed-calls (fetch list ctx_err backoff r it) (suc r) (r + 1) it (list it.q w).0
        (list it.q w).1 (λ v. omega (arith, fetch-calls r it v)),
  )

  -- Next calls List at most six times; once the context is done it changes nothing and returns the
  -- error of the context; after Close it returns no object.
  pub next-calls :
      (it : ObjectPageIterator O) (w : W)
      → (calls (next list ctx_err backoff (it, w)).1.1 ≤ calls w + 6)
        × ((e : Err)
            → done_err list ctx_err backoff it w ≡ some e
            → next list ctx_err backoff (it, w) ≡ (fail e, (it, w)))
        × ((o : O) (s : ObjectPageIterator O × W)
            → next list ctx_err backoff (close list ctx_err backoff it w, w) ≢ (ok o, s))
  unfolding next close return_page_next
  next-calls it w = (ground (arith, fetch-calls 5 it w), λ e h. rw (h, next), λ o s h. ground arith)
