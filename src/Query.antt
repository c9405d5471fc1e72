-- ===== src/Query.antt =====
-- query.go: a query, its chain of filters, and the filter that sorts. The objects are of any type
-- with a name, as the interface Object is.
pub mod Sorting
pub mod Behind
use cloudstorage.Base.{
  ℕ, zero, suc, ◌+◌, ◌-◌, ◌*◌, ◌/◌, ◌%◌, ◌^◌, ◌≤◌, ◌<◌, ◌≡◌, refl, sym, ap, ◌∙◌, ◌≢◌, ◌↔◌, ◌⊎◌, inl,
  inr, Bool, true, false, not, ◌&&◌, ◌||◌, Option, none, some, List, [], ◌∷◌, ◌++◌, map, arith,
  Bool-cases, Option-cases, present, Str, String, lit, str_eq, str_eq_iff, str_eq_refl, ltb, leb,
  ◌==◌, ==_iff, if◌then◌else◌, length, take, drop, keep, All, get_elem?, length-append, length-drop,
  Err, object_not_found, object_exists, iterator_done, canceled, deadline_exceeded, not_exist,
  exist, file_closed, bad_handle, message, Outcome, ok, fail, Act, return, throw, attempt, ◌>>=◌,
  ◌>>◌,
}
use cloudstorage.Base.Int.{ℤ, pos}

-- Filter func(objects Objects) Objects
abbrev pub Filter : Type 0 → Type 0
Filter O = List O → List O

-- A nil slice of filters is `none`.
pub record Query (O : Type 0) : Type 0 where
  pub delimiter : Str
  pub prefix : Str
  pub marker : Str
  pub show_hidden : Bool
  pub filters : Option (List (Filter O))
  pub page_size : ℤ

module _ {O : Type 0} where
  abbrev pub new_query_all : Query O
  new_query_all = record {
    delimiter = [];
    prefix = [];
    marker = [];
    show_hidden = false;
    filters = none;
    page_size = pos 0;
  }

  abbrev pub new_query : Str → Query O
  new_query prefix = record new_query_all { prefix = prefix }

  abbrev pub new_query_for_folders : Str → Query O
  new_query_for_folders folder = record new_query_all { delimiter = lit "/"; prefix = folder }

  abbrev made : Option (List (Filter O)) → List (Filter O)
  made none = []
  made (some fs) = fs

  unfoldable pub add_filter : Query O → Filter O → Query O
  add_filter q f = record q { filters = some (made q.filters ++ f ∷ []) }

  filter_loop : List (Filter O) → List O → List O
  filter_loop [] objects = objects
  filter_loop (f ∷ fs) objects = filter_loop fs (f objects)

  unfoldable pub apply_filters : Query O → List O → List O
  unfolding filter_loop
  apply_filters q objects = filter_loop (made q.filters) objects

pub apply_filters-none :
    {O : Type 0} (q : Query O) (objects : List O)
    → q.filters ≡ none
    → apply_filters q objects ≡ objects
unfolding apply_filters filter_loop
apply_filters-none q objects e = rw e refl

-- `<` on strings: the order of their bytes
unfoldable pub str_ltb : Str → Str → Bool
str_ltb s [] = false
str_ltb [] (d ∷ t) = true
str_ltb (c ∷ s) (d ∷ t) = ltb c d || (c == d && str_ltb s t)

module _ {O : Type 0} (name : O → Str) where
  -- Objects.Less of two objects
  abbrev pub less : O → O → Bool
  less a b = str_ltb (name a) (name b)

  place : O → List O → List O
  place x [] = x ∷ []
  place x (y ∷ ys) = let rest = place x ys in if less y x then y ∷ rest else x ∷ y ∷ ys

  -- sort.Stable of objects by Less, as an insertion sort
  unfoldable pub object_sort_filter : List O → List O
  unfolding place
  object_sort_filter [] = []
  object_sort_filter (x ∷ xs) = place x (object_sort_filter xs)

  abbrev pub sorted : Query O → Query O
  sorted q = add_filter q object_sort_filter
