-- ===== src/Tests/Iterators.antt =====
-- An iterator over two pages, the first of which comes behind an error.
use cloudstorage.Base.{
  ℕ, zero, suc, ◌+◌, ◌≤◌, ◌≡◌, refl, ◌≢◌, Option, none, some, [], ◌∷◌, arith, lit, str_eq, ltb,
  if◌then◌else◌, Err, iterator_done, deadline_exceeded, io, ok, fail, Act,
}
use cloudstorage.Query.{Query, new_query}
use cloudstorage.Iterator
use cloudstorage.Iterator.{
  ObjectsResponse, ObjectPageIterator, objects_all, new_object_page_iterator, done_err, next, close,
  backoff_seconds,
}
use cloudstorage.Iterator.Collect.{stop, more, gathered, objects_all-Yields}
use cloudstorage.Iterator.Paging.{now, later, Pages, last, page, objects_all-Pages}
use cloudstorage.Iterator.Retry.{next-calls}

-- The world is the number of calls of List.
abbrev two_pages : Query ℕ → Act ℕ (ObjectsResponse ℕ)
two_pages q zero = (fail io, 1)
two_pages q (suc w) =
    if str_eq q.marker []
    then (ok (record { objects = 3 ∷ 4 ∷ []; next_marker = lit "m" }), w + 2)
    else (ok (record { objects = 5 ∷ []; next_marker = [] }), w + 2)

abbrev no_sleep : ℕ → ℕ → ℕ
no_sleep n w = w

abbrev plain : Query ℕ
plain = new_query (lit "a")

-- An iterator that counts down.
abbrev countdown : Act ℕ ℕ
countdown zero = (fail iterator_done, 0)
countdown (suc w) = (ok w, w)

objects_all-Yields_example :
    objects_all countdown 3 2 ≡ some (gathered (1 ∷ 0 ∷ []) iterator_done, 0)
objects_all-Yields_example =
    objects_all-Yields countdown (1 ∷ 0 ∷ []) (more refl (more refl (stop refl)))

two_served : Pages two_pages no_sleep plain 0 (3 ∷ 4 ∷ 5 ∷ []) 3
unfolding str_eq
two_served = page 3 (4 ∷ []) (5 ∷ []) 109 [] (later io refl tt (now refl)) (last 5 [] (now refl))

objects_all-Pages_example :
    (it : ObjectPageIterator ℕ) × (objects_all
        (next two_pages (λ _. none) no_sleep)
        4
        (new_object_page_iterator two_pages (λ _. none) no_sleep plain, 0)
      ≡ some (ok (3 ∷ 4 ∷ 5 ∷ []), (it, 3)))
objects_all-Pages_example = objects_all-Pages two_pages no_sleep plain (3 ∷ 4 ∷ 5 ∷ []) two_served

-- The context of the iterator is done after seven calls.
abbrev seven_calls : ℕ → Option Err
seven_calls w = if ltb w 7 then none else some deadline_exceeded

abbrev turned : ObjectPageIterator ℕ
turned = record { q = plain; cursor = 1; page = 9 ∷ []; closed = none }

counted : (q : Query ℕ) (w : ℕ) → (two_pages q w).1 ≡ w + 1
unfolding str_eq
counted q zero = refl
counted q (suc w) = ground arith

next-calls_example :
    ((next two_pages seven_calls no_sleep (turned, 2)).1.1 ≤ 2 + 6)
    × ((e : Err)
        → done_err two_pages seven_calls no_sleep turned 2 ≡ some e
        → next two_pages seven_calls no_sleep (turned, 2) ≡ (fail e, (turned, 2)))
    × ((o : ℕ) (s : ObjectPageIterator ℕ × ℕ)
        → next two_pages seven_calls no_sleep
            (Iterator.close two_pages seven_calls no_sleep turned 2, 2)
          ≢ (ok o, s))
next-calls_example =
    next-calls two_pages seven_calls no_sleep (λ w. w) counted (λ n w. refl) turned 2
