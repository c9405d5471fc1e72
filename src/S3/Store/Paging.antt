-- ===== src/S3/Store/Paging.antt =====
-- The iterator over the pages of List of awss3/store.go.
use cloudstorage.Base.{
  ℕ, zero, suc, ◌+◌, ◌<◌, ◌≡◌, refl, ap, ◌∙◌, ◌≢◌, inl, inr, Bool, true, false, none, some, List,
  [], ◌∷◌, ◌++◌, map, arith, Option-cases, Str, ltb, length, length-append, ok,
}
use cloudstorage.Strings.{has_prefix}
use cloudstorage.Base.Int.{ℤ, pos, negsuc, positive}
use cloudstorage.Query.{Query, str_ltb, apply_filters, apply_filters-none}
use cloudstorage.Query.Behind.{Ascends, behind, behind-next, behind-holds}
use mathlib.Core.List.{map-append, append-nil, append_assoc}
use cloudstorage.Iterator.{ObjectPageIterator, next, objects_all}
use cloudstorage.Iterator.Paging.{Served, now, Pages, objects_all-Pages}
use cloudstorage.Iterator.Paging
use cloudstorage.Cloud.Object.{Object}
use cloudstorage.S3.Client.{Content, ListInput, Client}
use cloudstorage.S3.Store.{
  Fs, or_empty, new_object_listed, item_limit, last_key, next_marker, respond, list_input, list,
  objects,
}

-- What a list call is asked for, of all objects of a bucket.
abbrev pub wanted : Str → Content → Bool
wanted prefix x = has_prefix x.key prefix

-- A page and what is left behind it; a page is empty only if nothing is left.
abbrev pub Answers : {C : Type 0} → Client C → ListInput → C → List Content → Type 0
Answers client input c left =
    (xs ys : List Content) × (left ≡ xs ++ ys)
    × (xs ≡ [] → ys ≡ [])
    × (client.list_objects input c ≡ (
      ok (record { contents = xs; common_prefixes = []; is_truncated = some (ltb 0 (length ys)) }),
      c,
    ))

-- The documented behaviour of ListObjects: the keys of a bucket ascend and none is empty. A call
-- for at least one key and without a delimiter answers a first part of the objects with the prefix
-- behind the marker, and says whether it left some out. Nobody writes to the bucket meanwhile.
pub record IsListing {C : Type 0} (client : Client C) : Type 0 where
  pub contents : C → Str → List Content
  pub ascends : (c : C) (bucket : Str) → Ascends (λ x. x.key) [] (contents c bucket)
  pub answers :
      (input : ListInput) (c : C)
      → input.delimiter ≡ none
      → 0 < input.max_keys
      → Answers client input c (
          behind
            (λ x. x.key)
            (wanted input.prefix)
            (or_empty input.marker)
            (contents c input.bucket))

shorter :
    {A : Type 0} (n : ℕ) (xs ys zs ws : List A)
    → zs ≡ xs ++ ys
    → length zs < suc n
    → ws ≡ ys
    → xs ≢ []
    → length ws < n
shorter n [] ys zs ws split le e ne = absurd (ne refl)
shorter n (x ∷ xs) ys zs ws split le e ne =
    let lengths : length zs ≡ length (x ∷ xs) + length ys = rw split (length-append (x ∷ xs) ys) in
    rw e (omega arith)

module _ {C : Type 0} (f : Fs) (client : Client C) (backoff : ℕ → C → C)
    (L : IsListing client) where
  -- The objects that a query asks for
  abbrev pub left : Query Object → C → List Content
  left q c = behind (λ x. x.key) (wanted q.prefix) q.marker (L.contents c f.bucket)

  last_key-append :
      (x : Content) (xs : List Content)
      → (init : List Content) × (z : Content) × (x ∷ xs ≡ init ++ z ∷ [])
        × (last_key (x ∷ xs) ≡ some z.key)
  unfolding last_key
  last_key-append x [] = ([], x, refl, refl)
  last_key-append x (y ∷ xs) =
      let (init, z, e, k) = last_key-append y xs in (x ∷ init, z, ap (λ l. x ∷ l) e, k)

  next_marker-truncated :
      (n : ℕ) (xs : List Content) (key : Str)
      → last_key xs ≡ some key
      → next_marker (some (ltb 0 (suc n))) xs ≡ ok key
  unfolding next_marker
  next_marker-truncated n xs key e =
      let there : ltb 0 (suc n) ≡ true = ground arith in rw there (rw (next_marker, e))

  positive-pos : (z : ℤ) (n : ℕ) → positive z ≡ some n → 0 < n
  positive-pos (pos zero) n e = cc
  positive-pos (pos (suc m)) n e = ground arith
  positive-pos (negsuc m) n e = cc

  item_limit-pos : (q : Query Object) → 0 < f.page_size → 0 < item_limit f q
  item_limit-pos q h = elim (Option-cases (positive q.page_size)) [
    | inl none_there ↦ rw (item_limit, none_there) h
    | inr (n, there) ↦ rw (item_limit, there) (positive-pos q.page_size n there)
  ]

  -- A page, with what List makes of it
  list-Answers :
      (q : Query Object) (c : C) (xs ys : List Content)
      → client.list_objects (list_input f q) c ≡ (
        ok (record {
          contents = xs;
          common_prefixes = [];
          is_truncated = some (ltb 0 (length ys));
        }),
        c,
      )
      → (m : Str) → next_marker (some (ltb 0 (length ys))) xs ≡ ok m
      → list f client q c
        ≡ (ok (record { objects = map (new_object_listed f) xs; next_marker = m }), c)
  unfolding list
  list-Answers q c xs ys e m marked = rw (e, respond, marked)

  -- The last page
  last_page :
      (q : Query Object) (c : C) (xs : List Content)
      → client.list_objects (list_input f q) c
        ≡ (ok (record { contents = xs; common_prefixes = []; is_truncated = some false }), c)
      → Pages (list f client) backoff q c (map (new_object_listed f) xs) c
  unfolding next_marker
  last_page q c [] e = Paging.empty [] (now (list-Answers q c [] [] e [] refl))
  last_page q c (x ∷ xs) e =
      Paging.last (new_object_listed f x) (map (new_object_listed f) xs)
        (now (list-Answers q c (x ∷ xs) [] e [] refl))

  above-cons : (m k : Str) → str_ltb m k ≡ true → (d : ℕ) × (t : Str) × (k ≡ d ∷ t)
  unfolding str_ltb
  above-cons [] [] h = cc
  above-cons (c ∷ m) [] h = cc
  above-cons m (d ∷ k) h = (d, k, refl)

  abbrev pub all_left : Query Object → C → List Object
  all_left q c = map (new_object_listed f) (left q c)

  -- A page, where those behind its last key are served.
  one_page :
      (q : Query Object) (c : C) (xs ys : List Content)
      → ((key : Str)
          → left (record q { marker = key }) c ≡ ys
          → ys ≢ []
          → xs ≢ []
          → Pages
              (list f client)
              backoff
              (record q { marker = key })
              c
              (map (new_object_listed f) ys)
              c)
      → left q c ≡ xs ++ ys
      → (xs ≡ [] → ys ≡ [])
      → client.list_objects (list_input f q) c ≡ (
        ok (record {
          contents = xs;
          common_prefixes = [];
          is_truncated = some (ltb 0 (length ys));
        }),
        c,
      )
      → Pages (list f client) backoff q c (map (new_object_listed f) (xs ++ ys)) c
  one_page q c xs [] rest split whole e = rw append-nil (last_page q c xs e)
  one_page q c [] (y ∷ ys) rest split whole e = absurd (let none_left = whole refl in cc)
  one_page q c (x ∷ xs) (y ∷ ys) rest split whole e =
      let (init, z, ends, k) = last_key-append x xs in
      let found : left q c ≡ init ++ z ∷ y ∷ ys =
        split ∙ rw append_assoc at (ap (λ l. l ++ y ∷ ys) ends) in
      let above =
        behind-holds (λ x. x.key) (wanted q.prefix) q.marker (L.contents c f.bucket) init (y ∷ ys) z
          found in
      let (d, t, spelled) = above-cons q.marker z.key above in
      let behind_z =
        behind-next (λ x. x.key) (wanted q.prefix) q.marker [] (L.contents c f.bucket) init (y ∷ ys)
          z (L.ascends c f.bucket) found in
      let marked : next_marker (some (ltb 0 (length (y ∷ ys)))) (x ∷ xs) ≡ ok (d ∷ t) =
        next_marker-truncated (length ys) (x ∷ xs) (d ∷ t) (k ∙ ap some spelled) in
      rw map-append (
        Paging.page (new_object_listed f x) (map (new_object_listed f) xs)
          (map (new_object_listed f) (y ∷ ys)) d t
          (now (list-Answers q c (x ∷ xs) (y ∷ ys) e (d ∷ t) marked))
          (rw spelled at (rest z.key behind_z (λ i. cc) (λ i. cc))))

  pages :
      (n : ℕ) (q : Query Object) (c : C)
      → 0 < f.page_size
      → length (left q c) < n
      → Pages (list f client) backoff q c (all_left q c) c
  pages zero q c h le = absurd (omega arith)
  pages (suc n) q c h le =
      let (xs, ys, split, whole, answer) = L.answers (list_input f q) c refl (item_limit-pos q h) in
      rw split (
        one_page q c xs ys
          (λ key e some_ys some_xs. rw e at (
            pages n (record q { marker = key }) c h
              (shorter n xs ys (left q c) _ split le e some_xs)))
          split whole answer)

  objects-found :
      (q : Query Object) (c : C)
      → 0 < f.page_size
      → (it : ObjectPageIterator Object) × (objects_all
            (next (list f client) (λ _. none) backoff)
            (suc (length (all_left q c)))
            (objects f client (λ _. none) backoff q, c)
          ≡ some (ok (all_left q c), (it, c)))
  objects-found q c h =
      objects_all-Pages (list f client) backoff q (all_left q c)
        (pages (suc (length (left q c))) q c h (omega arith))

  -- ObjectsAll over Objects returns the result of the filters of the query on the objects of the bucket
  -- with its prefix that are behind its marker, in the order of their keys, whatever number of them
  -- the service puts in a page, for a query that has no filters: List does not apply any. The page
  -- size of the store is not zero, the context is never done, and the fuel is one pass more than
  -- there are objects.
  pub objects-all :
      (q : Query Object) (c : C)
      → q.filters ≡ none
      → 0 < f.page_size
      → (it : ObjectPageIterator Object) × (objects_all
            (next (list f client) (λ _. none) backoff)
            (suc (length (all_left q c)))
            (objects f client (λ _. none) backoff q, c)
          ≡ some (ok (apply_filters q (all_left q c)), (it, c)))
  objects-all q c unfiltered h =
      rw (apply_filters-none q (all_left q c) unfiltered) (objects-found q c h)
