-- ===== src/Iterator/Paging.antt =====
-- Paging through Store.List with the iterator gives the objects of all pages, transient failures
-- of List notwithstanding.
use cloudstorage.Base.{
  ℕ, zero, suc, ◌+◌, ◌-◌, ◌<◌, ◌≡◌, refl, ◌∙◌, true, false, ◌&&◌, Option, none, some, List, [], ◌∷◌,
  ◌++◌, arith, Str, str_eq, ltb, length, drop, get_elem?, Err, iterator_done, canceled,
  deadline_exceeded, Outcome, ok, fail, Act,
}
use mathlib.Core.List.{append-nil}
use native.Mathlib.Numerals.{add-one}
use cloudstorage.Base.{lt→ltb, ltb_irrefl}
use cloudstorage.Query.{Query}
use cloudstorage.Iterator.{
  ObjectsResponse, ObjectPageIterator, new_object_page_iterator, return_page_next, turn_page,
  listed, fetch, next, objects_all,
}
use cloudstorage.Iterator.Collect.{Yields, stop, more, objects_all-Yields}

-- An error after which the iterator tries again.
abbrev pub IsTransient : Err → Type 0
IsTransient iterator_done = ⊥
IsTransient canceled = ⊥
IsTransient deadline_exceeded = ⊥
IsTransient e = Unit

-- What List does in a world in which the context is never done.
module _ {W O : Type 0} (list : Query O → Act W (ObjectsResponse O)) (backoff : ℕ → W → W) where
  -- With some retries left, List answers at last.
  pub data Served (q : Query O) : ℕ → W → ObjectsResponse O → W → Type 0 where
    now :
        {r : ℕ} {w w' : W} {resp : ObjectsResponse O}
        → list q w ≡ (ok resp, w')
        → Served q r w resp w'
    later :
        {r : ℕ} {w v w' : W} {resp : ObjectsResponse O} (e : Err)
        → list q w ≡ (fail e, v)
        → IsTransient e
        → Served q r (backoff (4 - r) v) resp w'
        → Served q (suc r) w resp w'

  -- The pages that List serves from a query on: one without objects ends them, and so does one
  -- without a marker.
  pub data Pages : Query O → W → List O → W → Type 0 where
    empty :
        {q : Query O} {w w' : W} (m : Str)
        → Served q 5 w (record { objects = []; next_marker = m }) w'
        → Pages q w [] w'
    last :
        {q : Query O} {w w' : W} (o : O) (os : List O)
        → Served q 5 w (record { objects = o ∷ os; next_marker = [] }) w'
        → Pages q w (o ∷ os) w'
    page :
        {q : Query O} {w v w' : W} (o : O) (os objs : List O) (c : ℕ) (m : Str)
        → Served q 5 w (record { objects = o ∷ os; next_marker = c ∷ m }) v
        → Pages (record q { marker = c ∷ m }) v objs w'
        → Pages q w (o ∷ (os ++ objs)) w'

  abbrev never : W → Option Err
  never w = none

  abbrev step : Act (ObjectPageIterator O × W) O
  step = next list never backoff

  abbrev at : Query O → List O → ℕ → ObjectPageIterator O
  at q p c = record { q = q; cursor = c; page = p; closed = none }

  listed-retry :
      (again : W → Outcome O × (ObjectPageIterator O × W)) (r : ℕ) (it : ObjectPageIterator O)
      (e : Err) (w : W)
      → IsTransient e
      → listed list never backoff again (suc r) it (fail e, w) ≡ again (backoff (4 - r) w)
  unfolding listed
  listed-retry again r it iterator_done w t = absurd t
  listed-retry again r it canceled w t = absurd t
  listed-retry again r it deadline_exceeded w t = absurd t
  listed-retry again r it _ w t = refl

  fetch-Served :
      (it : ObjectPageIterator O) {r : ℕ} {w w' : W} {resp : ObjectsResponse O}
      → Served it.q r w resp w'
      → fetch list never backoff r it w ≡ turn_page list never backoff resp (it, w')
  unfolding fetch listed
  fetch-Served it {r = zero} (now h) = rw h
  fetch-Served it {r = suc r} (now h) = rw h
  fetch-Served it {r = suc r} (later {v = v} x h t s) =
      rw h (listed-retry (fetch list never backoff r it) r it x v t ∙ fetch-Served it s)

  next-inside :
      (q : Query O) (p : List O) (c : ℕ) (o : O) (w : W)
      → get_elem? p c ≡ some o
      → c < length p
      → step (at q p c, w) ≡ (ok o, (at q p (c + 1), w))
  unfolding next return_page_next
  next-inside q p c o w h lt = rw (lt→ltb c (length p) lt) (rw h)

  next-fetch :
      (q : Query O) (p : List O) (c : ℕ) (w : W)
      → ltb c (length p) ≡ false
      → (ltb 0 c && str_eq q.marker []) ≡ false
      → step (at q p c, w) ≡ fetch list never backoff 5 (at q p c) w
  unfolding next
  next-fetch q p c w out on = rw out (rw on)

  next-end :
      (q : Query O) (p : List O) (c : ℕ) (w : W)
      → ltb c (length p) ≡ false
      → (ltb 0 c && str_eq q.marker []) ≡ true
      → step (at q p c, w) ≡ (fail iterator_done, (at q p c, w))
  unfolding next
  next-end q p c w out over = rw out (rw over)

  get_elem?-drop :
      (p : List O) (c : ℕ)
      → c < length p
      → (o : O) × (get_elem? p c ≡ some o) × (drop c p ≡ o ∷ drop (c + 1) p)
  get_elem?-drop [] c h = absurd (omega arith)
  get_elem?-drop (o ∷ p) zero h = (o, refl, refl)
  get_elem?-drop (o ∷ p) (suc c) h = rw add-one (rw add-one at (get_elem?-drop p c (omega arith)))

  drop-length : (p : List O) → drop (length p) p ≡ []
  drop-length [] = refl
  drop-length (o ∷ p) = drop-length p

  -- The rest of a page, and then what comes behind it.
  rest-Yields :
      (n : ℕ) (q : Query O) (p : List O) (c : ℕ) {w w' : W} {objs : List O} {e : Err}
      {it : ObjectPageIterator O}
      → c + n ≡ length p
      → Yields step (at q p (length p), w) objs e (it, w')
      → Yields step (at q p c, w) (drop c p ++ objs) e (it, w')
  rest-Yields zero q p c h y = let full : c ≡ length p = omega arith in rw (full, drop-length) y
  rest-Yields (suc n) q p c h y =
      let (o, at_c, here) = get_elem?-drop p c (omega arith) in
      rw here (
        more (next-inside q p c o _ at_c (omega arith)) (rest-Yields n q p (c + 1) (omega arith) y))

  turn_page-cons :
      (o : O) (os : List O) (m : Str) (q : Query O) (p : List O) (c : ℕ) (w : W)
      → turn_page list never backoff (record { objects = o ∷ os; next_marker = m }) (at q p c, w)
        ≡ (ok o, (at (record q { marker = m }) (o ∷ os) 1, w))
  unfolding turn_page return_page_next
  turn_page-cons o os m q p c w = ground arith

  turn_page-nil :
      (m : Str) (it : ObjectPageIterator O) (w : W)
      → turn_page list never backoff (record { objects = []; next_marker = m }) (it, w) ≡ (
        fail iterator_done,
        (record it { page = []; cursor = 0; q = record it.q { marker = m } }, w),
      )
  unfolding turn_page
  turn_page-nil m it w = refl

  -- A page behind the last object of which the iterator ends.
  end-Yields :
      (q : Query O) (o : O) (os : List O) (w : W)
      → Yields step
          (at (record q { marker = [] }) (o ∷ os) (length (o ∷ os)), w)
          []
          iterator_done
          (at (record q { marker = [] }) (o ∷ os) (length (o ∷ os)), w)
  end-Yields q o os w = stop (
      next-end (record q { marker = [] }) (o ∷ os) (length (o ∷ os)) w
        (ltb_irrefl (length (o ∷ os))) (unfold str_eq in ground arith))

  -- From an iterator that has to turn the page.
  Pages-yield :
      (q : Query O) (p : List O) (c : ℕ) {w w' : W} (objs : List O)
      → ltb c (length p) ≡ false
      → (ltb 0 c && str_eq q.marker []) ≡ false
      → Pages q w objs w'
      → (it : ObjectPageIterator O) × Yields step (at q p c, w) objs iterator_done (it, w')
  Pages-yield q p c objs out on (empty m s) = (
    at (record q { marker = m }) [] 0,
    stop (next-fetch q p c _ out on ∙ fetch-Served (at q p c) s ∙ turn_page-nil m (at q p c) _),
  )
  Pages-yield q p c {w' = w'} objs out on (last o os s) =
      let it = at (record q { marker = [] }) (o ∷ os) (length (o ∷ os)) in
      (
        it,
        more
            (next-fetch q p c _ out on ∙ fetch-Served (at q p c) s ∙ turn_page-cons o os [] q p c _)
            (rw append-nil at (
              rest-Yields (length os) (record q { marker = [] }) (o ∷ os) 1 {w = w'} {w' = w'}
                {objs = []} {e = iterator_done} {it = it} (omega arith) (end-Yields q o os w'))),
      )
  Pages-yield q p c objs out on (page o os rest d m s ps) =
      let q' = record q { marker = d ∷ m } in
      let (it, y) =
        Pages-yield q' (o ∷ os) (length (o ∷ os)) rest (ltb_irrefl (length (o ∷ os)))
          (unfold str_eq in ground arith) ps in
      (
        it,
        more
            (next-fetch q p c _ out on
              ∙ fetch-Served (at q p c) s
              ∙ turn_page-cons o os (d ∷ m) q p c _)
            (rest-Yields (length os) q' (o ∷ os) 1 (omega arith) y),
      )

  -- If every page that List serves from a query on, up to the first that has no objects or no marker,
  -- comes at the latest after five transient errors, then ObjectsAll over a new iterator for the
  -- query returns the objects of these pages, in order: an empty page ends it also where it has a
  -- marker. The context is never done; the fuel is one pass more than there are objects.
  pub objects_all-Pages :
      (q : Query O) {w w' : W} (objs : List O)
      → Pages q w objs w'
      → (it : ObjectPageIterator O) × (objects_all
            (next list (λ _. none) backoff)
            (suc (length objs))
            (new_object_page_iterator list (λ _. none) backoff q, w)
          ≡ some (ok objs, (it, w')))
  objects_all-Pages q {w} objs ps =
      let (it, y) = Pages-yield q [] 0 {w = w} objs refl refl ps in
      (it, objects_all-Yields step objs y)
