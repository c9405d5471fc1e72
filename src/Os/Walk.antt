-- ===== src/Os/Walk.antt =====
-- filepath.Walk and ioutil.ReadDir: the entries below a path, in lexical order.
use cloudstorage.Base.{
  Bool, true, false, not, ◌&&◌, ◌||◌, List, [], ◌∷◌, ◌++◌, map, Str, lit, str_eq, if◌then◌else◌,
  keep, ok, Act,
}
use cloudstorage.Strings.{has_prefix, split}
use cloudstorage.Strings.Paths.{slash, dir, base}
use cloudstorage.Query.{str_ltb}
use cloudstorage.Os.{Os, Entry, unless_fault}

-- The order in which Walk comes to two paths: by their elements.
path_ltb : List Str → List Str → Bool
path_ltb ps [] = false
path_ltb [] (q ∷ qs) = true
path_ltb (p ∷ ps) (q ∷ qs) = str_ltb p q || (str_eq p q && path_ltb ps qs)

put_in : Str × Entry → List (Str × Entry) → List (Str × Entry)
put_in (p, x) [] = (p, x) ∷ []
put_in (p, x) ((q, y) ∷ ys) =
    let rest = put_in (p, x) ys in
    if path_ltb (split q slash) (split p slash) then (q, y) ∷ rest else (p, x) ∷ (q, y) ∷ ys

in_order : List (Str × Entry) → List (Str × Entry)
unfolding path_ltb put_in
in_order [] = []
in_order (x ∷ xs) = put_in x (in_order xs)

-- A path that Walk from a root comes to.
unfoldable pub is_below : Str → Str → Bool
is_below root path =
    if str_eq root (lit ".")
    then not (has_prefix path (lit "/"))
    else if str_eq root (lit "/")
    then has_prefix path (lit "/")
    else str_eq path root || has_prefix path (root ++ lit "/")

-- What Walk from a root finds, or an error.
unfoldable pub walk : Str → Act Os (List (Str × Entry))
unfolding in_order
walk root = unless_fault λ os. (ok (in_order (keep (λ (p, e). is_below root p) os.entries)), os)

-- ioutil.ReadDir: the names in a directory and what they are
unfoldable pub read_dir : Str → Act Os (List (Str × Entry))
unfolding in_order
read_dir path = unless_fault λ os. (
  ok (map (λ (p, e). (base p, e)) (in_order (keep (λ (p, e). str_eq (dir p) path) os.entries))),
  os,
)
