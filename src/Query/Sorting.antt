-- ===== src/Query/Sorting.antt =====
-- The filter that sorts is a stable sort by name.
use cloudstorage.Base.{
  ◌≡◌, refl, ◌∙◌, true, false, List, [], ◌∷◌, ◌++◌, arith, Str, str_eq, str_eq_iff, keep,
}
use cloudstorage.Query.{
  Query, Filter, str_ltb, less, place, object_sort_filter, made, filter_loop, add_filter,
  apply_filters, sorted,
}

pub str_ltb_irrefl : (s : Str) → str_ltb s s ≡ false
unfolding str_ltb
str_ltb_irrefl [] = refl
str_ltb_irrefl (c ∷ s) = ground (arith, str_ltb_irrefl s)

pub str_ltb-asym : (s t : Str) → str_ltb s t ≡ true → str_ltb t s ≡ false
unfolding str_ltb
str_ltb-asym [] [] h = refl
str_ltb-asym [] (d ∷ t) h = refl
str_ltb-asym (c ∷ s) [] h = cc
str_ltb-asym (c ∷ s) (d ∷ t) h = ground (arith, str_ltb-asym s t)

module _ {O : Type 0} (name : O → Str) where
  -- No object of the list has a smaller name than the one before it.
  abbrev pub IsSorted : List O → Type 0
  IsSorted [] = Unit
  IsSorted (x ∷ []) = Unit
  IsSorted (x ∷ y ∷ ys) = (less name y x ≡ false) × IsSorted (y ∷ ys)

  place-IsSorted_below :
      (b x : O) (ys : List O)
      → less name x b ≡ false
      → IsSorted (b ∷ ys)
      → IsSorted (place name x ys)
      → IsSorted (b ∷ place name x ys)
  unfolding place
  place-IsSorted_below b x [] h s p = ground arith
  place-IsSorted_below b x (y ∷ ys) h s p = ground arith

  place-IsSorted : (x : O) (ys : List O) → IsSorted ys → IsSorted (place name x ys)
  unfolding place
  place-IsSorted x [] s = tt
  place-IsSorted x (y ∷ []) s = ground (arith, str_ltb-asym (name y) (name x))
  place-IsSorted x (y ∷ z ∷ ys) s = ground (
    arith,
    str_ltb-asym (name y) (name x),
    place-IsSorted_below y x (z ∷ ys),
    place-IsSorted x (z ∷ ys) s.1,
  )

  -- The objects of one name, in order.
  abbrev pub named : Str → List O → List O
  named n = keep (λ o. str_eq (name o) n)

  place-named : (n : Str) (x : O) (ys : List O) → named n (place name x ys) ≡ named n (x ∷ ys)
  unfolding place
  place-named n x [] = refl
  place-named n x (y ∷ ys) =
      ground
        (arith, place-named n x ys, str_eq_iff (name x) n, str_eq_iff (name y) n, str_ltb_irrefl n)

  sort-IsSorted : (objs : List O) → IsSorted (object_sort_filter name objs)
  unfolding object_sort_filter
  sort-IsSorted [] = tt
  sort-IsSorted (x ∷ xs) = place-IsSorted x _ (sort-IsSorted xs)

  sort-named : (n : Str) (objs : List O) → named n (object_sort_filter name objs) ≡ named n objs
  unfolding object_sort_filter
  sort-named n [] = refl
  sort-named n (x ∷ xs) = place-named n x _ ∙ ground (arith, sort-named n xs)

  filter_loop-append :
      (fs : List (Filter O)) (f : Filter O) (objs : List O)
      → filter_loop (fs ++ f ∷ []) objs ≡ f (filter_loop fs objs)
  unfolding filter_loop
  filter_loop-append [] f objs = refl
  filter_loop-append (g ∷ fs) f objs = filter_loop-append fs f (g objs)

  -- The filter that is added last is applied to what the filters before it leave, also where the
  -- query had none.
  apply_filters-add_filter :
      (q : Query O) (f : Filter O) (objs : List O)
      → apply_filters (add_filter q f) objs ≡ f (apply_filters q objs)
  unfolding apply_filters add_filter
  apply_filters-add_filter q f objs = filter_loop-append (made q.filters) f objs

  -- After Sorted() the filters of a query give the objects that they gave before, sorted by name:
  -- for each name the objects of that name are there as often and in the same order.
  pub apply_filters-sorted :
      (q : Query O) (objs : List O)
      → IsSorted (apply_filters (sorted name q) objs)
        × ((n : Str)
            → named n (apply_filters (sorted name q) objs) ≡ named n (apply_filters q objs))
  apply_filters-sorted q objs =
      rw (apply_filters-add_filter q (object_sort_filter name) objs)
        (sort-IsSorted _, λ n. sort-named n _)
