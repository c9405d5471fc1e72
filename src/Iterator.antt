-- ===== src/Iterator.antt =====
-- iterator.go: collecting an iterator, and the iterator over the pages of Store.List. `W` is the
-- state of everything outside the iterator.
pub mod Collect
pub mod Paging
pub mod Retry
use cloudstorage.Base.{
  ℕ, zero, suc, ◌+◌, ◌-◌, ◌*◌, ◌/◌, ◌%◌, ◌^◌, ◌≤◌, ◌<◌, ◌≡◌, refl, sym, ap, ◌∙◌, ◌≢◌, ◌↔◌, ◌⊎◌, inl,
  inr, Bool, true, false, not, ◌&&◌, ◌||◌, Option, none, some, List, [], ◌∷◌, ◌++◌, map, arith,
  Bool-cases, Option-cases, present, Str, String, lit, str_eq, str_eq_iff, str_eq_refl, ltb, leb,
  ◌==◌, ==_iff, if◌then◌else◌, length, take, drop, keep, All, get_elem?, length-append, length-drop,
  Err, object_not_found, object_exists, iterator_done, canceled, deadline_exceeded, not_exist,
  exist, file_closed, bad_handle, message, Outcome, ok, fail, Act, return, throw, attempt, ◌>>=◌,
  ◌>>◌,
}
use cloudstorage.Query.{Query}

module _ {W O : Type 0} where
  -- What a pass of the loop of ObjectsAll does with what Next returned; `again` is the next pass.
  collected :
      (List O → W → Option (Outcome (List O) × W))
      → List O
      → Outcome O × W
      → Option (Outcome (List O) × W)
  collected again objs (ok o, w) = again (objs ++ o ∷ []) w
  collected again objs (fail iterator_done, w) = some (ok objs, w)
  collected again objs (fail e, w) = some (fail e, w)

  module _ (next : Act W O) where
    collect : ℕ → List O → W → Option (Outcome (List O) × W)
    unfolding collected
    collect zero objs w = none
    collect (suc fuel) objs w = collected (collect fuel) objs (next w)

    -- ObjectsAll, on fuel; `none` means that the fuel ran out.
    unfoldable pub objects_all : ℕ → W → Option (Outcome (List O) × W)
    unfolding collect
    objects_all fuel w = collect fuel [] w

-- ObjectsResponse
pub record ObjectsResponse (O : Type 0) : Type 0 where
  pub objects : List O
  pub next_marker : Str

module _ {W O : Type 0} where
  unfoldable pub respond : Outcome (List O) × W → Outcome (ObjectsResponse O) × W
  respond (ok objs, w) = (ok (record { objects = objs; next_marker = [] }), w)
  respond (fail e, w) = (fail e, w)

  unfoldable pub object_response_from_iter :
      Act W O → ℕ → W → Option (Outcome (ObjectsResponse O) × W)
  unfolding respond objects_all
  object_response_from_iter next fuel w = elim (objects_all next fuel w) [
    | none ↦ none
    | some r ↦ some (respond r)
  ]

-- The iterator over pages. `closed` is the error of its own context, once it was cancelled.
pub record ObjectPageIterator (O : Type 0) : Type 0 where
  pub q : Query O
  pub cursor : ℕ
  pub page : List O
  pub closed : Option Err

-- Store.List and what the runtime does: the error of the context that the iterator was made with,
-- once it is done, and the sleep of Backoff, during which the world goes on.
module _ {W O : Type 0} (list : Query O → Act W (ObjectsResponse O)) (ctx_err : W → Option Err)
    (backoff : ℕ → W → W) where
  abbrev pub new_object_page_iterator : Query O → ObjectPageIterator O
  new_object_page_iterator q = record { q = q; cursor = 0; page = []; closed = none }

  -- it.ctx.Err()
  abbrev pub done_err : ObjectPageIterator O → W → Option Err
  done_err it w = elim it.closed [ some e ↦ some e | none ↦ ctx_err w ]

  unfoldable pub close : ObjectPageIterator O → W → ObjectPageIterator O
  close it w = elim (done_err it w) [ some e ↦ it | none ↦ record it { closed = some canceled } ]

  abbrev State : Type 0
  State = ObjectPageIterator O × W

  -- An index out of range panics in Go; Next calls this below the length only.
  unfoldable pub return_page_next : Act State O
  return_page_next (it, w) = elim (get_elem? it.page it.cursor) [
    | some o ↦ (ok o, (record it { cursor = it.cursor + 1 }, w))
    | none ↦ (fail (message "index out of range"), (it, w))
  ]

  -- A page that List returned.
  turn_page : ObjectsResponse O → Act State O
  unfolding return_page_next
  turn_page resp (it, w) =
      let it' : ObjectPageIterator O = record it {
        page = resp.objects;
        cursor = 0;
        q = record it.q { marker = resp.next_marker };
      } in
      if length resp.objects == 0 then (fail iterator_done, (it', w)) else return_page_next (it', w)

  -- What a pass of the loop does with what List returned: `retries` of the five are left.
  listed :
      (W → Outcome O × State)
      → ℕ
      → ObjectPageIterator O
      → Outcome (ObjectsResponse O) × W
      → Outcome O × State
  unfolding turn_page
  listed again retries it (ok resp, w) = turn_page resp (it, w)
  listed again retries it (fail iterator_done, w) = (fail iterator_done, (it, w))
  listed again retries it (fail canceled, w) = (fail canceled, (it, w))
  listed again retries it (fail deadline_exceeded, w) = (fail deadline_exceeded, (it, w))
  listed again zero it (fail e, w) = (fail e, (it, w))
  listed again (suc retries) it (fail e, w) = again (backoff (4 - retries) w)

  -- `for { … }`: retryCt is 5 - retries, so that there are at most six passes.
  fetch : ℕ → ObjectPageIterator O → W → Outcome O × State
  unfolding listed
  fetch zero it w = listed (λ w'. (fail canceled, (it, w'))) zero it (list it.q w)
  fetch (suc retries) it w = listed (fetch retries it) (suc retries) it (list it.q w)

  unfoldable pub next : Act State O
  unfolding return_page_next fetch
  next (it, w) = elim (done_err it w) [
    | some e ↦ (fail e, (it, w))
    | none ↦
        if ltb it.cursor (length it.page)
        then return_page_next (it, w)
        else if ltb 0 it.cursor && str_eq it.q.marker []
        then (fail iterator_done, (it, w))
        else fetch 5 it w
  ]

-- The seconds that Backoff sleeps: rand.Int31n(n) below min(max(1, 2^try), 16).
unfoldable pub backoff_seconds : (ℕ → ℕ) → ℕ → ℕ
backoff_seconds int31n try = int31n (if ltb 16 (2 ^ try) then 16 else 2 ^ try)
