-- ===== src/Google/Store/Listing.antt =====
-- List of google/store.go gives all objects that the iterator of the service gives.
use cloudstorage.Base.{
  ℕ, zero, suc, ◌-◌, ◌≡◌, refl, ◌∙◌, Option, none, some, List, [], ◌∷◌, map, length, Err,
  iterator_done, canceled, deadline_exceeded, Outcome, ok, fail, Act,
}
use cloudstorage.Query.{Query, apply_filters, apply_filters-none}
use cloudstorage.Iterator.{objects_all, object_response_from_iter, respond}
use cloudstorage.Iterator.Collect.{Yields, stop, more, objects_all-Yields}
use cloudstorage.Iterator.Paging.{IsTransient}
use cloudstorage.Google.Client.{Attrs, Client}
use cloudstorage.Google.Object.{Object}
use cloudstorage.Google.Store.{
  GcsFs, new_object_from, stepped, unless_done, next_loop, next_object, objects, list,
}

response :
    {C : Type 0} (next : Act C Object) (fuel : ℕ) (objs : List Object) (c c' : C)
    → objects_all next fuel c ≡ some (ok objs, c')
    → object_response_from_iter next fuel c
      ≡ some (ok (record { objects = objs; next_marker = [] }), c')
unfolding object_response_from_iter respond
response next fuel objs c c' e = rw (e, object_response_from_iter)

module _ {C : Type 0} (g : GcsFs) (client : Client C) (backoff : ℕ → C → C) where
  abbrev never : C → Option Err
  never c = none

  -- With some retries left, the service's iterator answers at last: with an object, or the end.
  pub data Answers (iter : ℕ) : ℕ → C → Outcome Attrs → C → Type 0 where
    gives :
        {r : ℕ} {c c' : C} {a : Attrs}
        → client.next_attrs iter c ≡ (ok a, c')
        → Answers iter r c (ok a) c'
    ends :
        {r : ℕ} {c c' : C}
        → client.next_attrs iter c ≡ (fail iterator_done, c')
        → Answers iter r c (fail iterator_done) c'
    later :
        {r : ℕ} {c v c' : C} {x : Outcome Attrs} (e : Err)
        → client.next_attrs iter c ≡ (fail e, v)
        → IsTransient e
        → Answers iter r (backoff (4 - r) v) x c'
        → Answers iter (suc r) c x c'

  abbrev object_of : Outcome Attrs → Outcome Object
  object_of (ok a) = ok (new_object_from g a)
  object_of (fail e) = fail e

  stepped-retry :
      (again : Act C Object) (r : ℕ) (e : Err) (c : C)
      → IsTransient e
      → stepped g client never backoff again (suc r) (fail e, c) ≡ again (backoff (4 - r) c)
  unfolding stepped
  stepped-retry again r iterator_done c t = absurd t
  stepped-retry again r canceled c t = absurd t
  stepped-retry again r deadline_exceeded c t = absurd t
  stepped-retry again r _ c t = refl

  next_loop-Answers :
      (iter r : ℕ) (c c' : C) (x : Outcome Attrs)
      → Answers iter r c x c'
      → next_loop g client never backoff r iter c ≡ (object_of x, c')
  unfolding next_loop unless_done stepped
  next_loop-Answers iter zero c c' x (gives h) = rw h
  next_loop-Answers iter (suc r) c c' x (gives h) = rw h
  next_loop-Answers iter zero c c' x (ends h) = rw h
  next_loop-Answers iter (suc r) c c' x (ends h) = rw h
  next_loop-Answers iter (suc r) c c' x (later {v = v} e h t y) = rw h (
      stepped-retry (next_loop g client never backoff r iter) r e v t
      ∙ next_loop-Answers iter r (backoff (4 - r) v) c' x y)

  -- All answers up to the end, each of them at the latest after five transient errors.
  pub data Lists (iter : ℕ) : C → List Attrs → C → Type 0 where
    over : {c c' : C} → Answers iter 5 c (fail iterator_done) c' → Lists iter c [] c'
    one :
        {c v c' : C} (a : Attrs) (found : List Attrs)
        → Answers iter 5 c (ok a) v
        → Lists iter v found c'
        → Lists iter c (a ∷ found) c'

  Lists-Yields :
      (iter : ℕ) {c c' : C} (found : List Attrs)
      → Lists iter c found c'
      → Yields
          (next_object g client never backoff iter)
          c
          (map (new_object_from g) found)
          iterator_done
          c'
  unfolding next_object
  Lists-Yields iter _ (over {c = c} {c' = c'} a) = stop (next_loop-Answers iter 5 c c' _ a)
  Lists-Yields iter _ (one {c = c} {v = v} a found x y) =
      more (next_loop-Answers iter 5 c v _ x) (Lists-Yields iter found y)

  list-found :
      (q : Query Object) (c c' : C) (found : List Attrs)
      → Lists
          (client.list_objects g.bucket [] q.prefix c).0
          (client.list_objects g.bucket [] q.prefix c).1
          found
          c'
      → list g client never backoff (suc (length (map (new_object_from g) found))) q c
        ≡ some (ok (record { objects = map (new_object_from g) found; next_marker = [] }), c')
  unfolding list objects
  list-found q c c' found l =
      let (iter, c0) = client.list_objects g.bucket [] q.prefix c in
      response (next_object g client never backoff iter)
        (suc (length (map (new_object_from g) found))) (map (new_object_from g) found) c0 c'
        (objects_all-Yields (next_object g client never backoff iter)
          (map (new_object_from g) found) (Lists-Yields iter found l))

  -- If the iterator of the service gives objects up to the end, each answer at the latest after five
  -- transient errors, List returns the result of the filters of the query on them, in order, for a
  -- query that has no filters: List does not apply any. The context is never done; the fuel is one
  -- pass more than there are objects.
  pub list-Lists :
      (q : Query Object) (c c' : C) (found : List Attrs)
      → q.filters ≡ none
      → Lists
          (client.list_objects g.bucket [] q.prefix c).0
          (client.list_objects g.bucket [] q.prefix c).1
          found
          c'
      → list g client never backoff (suc (length (map (new_object_from g) found))) q c
        ≡ some (
          ok (record {
            objects = apply_filters q (map (new_object_from g) found);
            next_marker = [];
          }),
          c',
        )
  list-Lists q c c' found unfiltered l =
      rw (apply_filters-none q (map (new_object_from g) found) unfiltered)
        (list-found q c c' found l)
