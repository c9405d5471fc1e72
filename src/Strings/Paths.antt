-- ===== src/Strings/Paths.antt =====
-- Go's package `path`: Clean, Join, Dir, Base and Ext (and filepath.Ext, which is the same on Unix).
use mathlib.Core.List.{reverse}
use cloudstorage.Base.{
  ℕ, Bool, true, false, not, ◌&&◌, ◌||◌, List, [], ◌∷◌, ◌++◌, Str, lit, str_eq, ◌==◌, if◌then◌else◌,
  keep,
}
use cloudstorage.Strings.{split, join, has_prefix}

abbrev pub slash : ℕ
slash = b'/'

-- Clean's elements that are kept so far stand in reverse.
dotdot : Bool → List Str → List Str
dotdot true [] = []
dotdot false [] = lit ".." ∷ []
dotdot rooted (e ∷ es) = if str_eq e (lit "..") then lit ".." ∷ e ∷ es else es

clean_elems : Bool → List Str → List Str → List Str
clean_elems rooted [] out = out
clean_elems rooted (e ∷ es) out = clean_elems rooted es (
    if str_eq e [] || str_eq e (lit ".")
    then out
    else if str_eq e (lit "..")
    then dotdot rooted out
    else e ∷ out)

unfoldable pub clean : Str → Str
unfolding dotdot clean_elems
clean s =
    let rooted = has_prefix s (lit "/") in
    let body = join (reverse (clean_elems rooted (split s slash) [])) (lit "/") in
    if rooted then slash ∷ body else if str_eq body [] then lit "." else body

-- path.Join: empty elements are left out, and no element at all gives "".
unfoldable pub path_join : List Str → Str
path_join elems =
    let parts = keep (λ e. not (str_eq e [])) elems in
    if str_eq (join parts []) [] then [] else clean (join parts (lit "/"))

-- The text behind the last slash, from the text since the last one that was seen.
after_slash : Str → Str → Str
after_slash [] seen = seen
after_slash (c ∷ s) seen = after_slash s (if c == slash then [] else seen ++ c ∷ [])

-- The text up to the last slash, with it.
up_to_slash : Str → Str → Str → Str
up_to_slash [] dir seen = dir
up_to_slash (c ∷ s) dir seen =
    up_to_slash s (if c == slash then seen ++ c ∷ [] else dir) (seen ++ c ∷ [])

unfoldable pub dir : Str → Str
unfolding up_to_slash
dir s = clean (up_to_slash s [] [])

strip_slashes : Str → Str
strip_slashes [] = []
strip_slashes (c ∷ s) =
    let rest = strip_slashes s in if c == slash && str_eq rest [] then [] else c ∷ rest

unfoldable pub base : Str → Str
unfolding after_slash strip_slashes
base s =
    if str_eq s []
    then lit "."
    else if str_eq (after_slash (strip_slashes s) []) []
    then lit "/"
    else after_slash (strip_slashes s) []

-- The suffix from the last dot of the last element, or "".
ext_from : Str → Str → Str
ext_from [] seen = seen
ext_from (c ∷ s) seen = ext_from s (if c == slash then [] else if c == b'.' then c ∷ s else seen)

unfoldable pub ext : Str → Str
unfolding ext_from
ext s = ext_from s []
