-- ===== src/Strings.antt =====
-- What the code uses of Go's packages `strings` and `path`, over the bytes of a string. An index of
-- -1 is `none`.
pub mod Trim
pub mod Paths
pub mod Splitting
use cloudstorage.Base.{
  ℕ, suc, ◌+◌, ◌-◌, Bool, true, false, ◌&&◌, Option, none, some, List, [], ◌∷◌, ◌++◌, Str, leb,
  ◌==◌, if◌then◌else◌, length, drop, map,
}

unfoldable pub has_prefix : Str → Str → Bool
has_prefix s [] = true
has_prefix [] (p ∷ ps) = false
has_prefix (c ∷ s) (p ∷ ps) = c == p && has_prefix s ps

unfoldable pub trim_prefix : Str → Str → Str
trim_prefix s p = if has_prefix s p then drop (length p) s else s

unfoldable pub index : Str → Str → Option ℕ
index [] sub = if has_prefix [] sub then some 0 else none
index (c ∷ s) sub =
    let rest = index s sub in
    if has_prefix (c ∷ s) sub then some 0 else elim rest [ none ↦ none | some i ↦ some (suc i) ]

unfoldable pub contains : Str → Str → Bool
contains s sub = elim (index s sub) [ none ↦ false | some i ↦ true ]

unfoldable pub has_suffix : Str → Str → Bool
has_suffix s suffix =
    leb (length suffix) (length s) && has_prefix (drop (length s - length suffix) s) suffix

-- strings.Replace(s, old, new, 1)
unfoldable pub replace_first : Str → Str → Str → Str
replace_first [] old new = if has_prefix [] old then new else []
replace_first (c ∷ s) old new =
    let rest = replace_first s old new in
    if has_prefix (c ∷ s) old then new ++ drop (length old) (c ∷ s) else c ∷ rest

-- strings.Replace(s, old, new, -1), for an `old` of one byte
unfoldable pub replace_byte : Str → ℕ → Str → Str
replace_byte [] old new = []
replace_byte (c ∷ s) old new =
    let rest = replace_byte s old new in if c == old then new ++ rest else c ∷ rest

prepend : ℕ → List Str → List Str
prepend c [] = (c ∷ []) ∷ []
prepend c (p ∷ ps) = (c ∷ p) ∷ ps

-- strings.Split, for a separator of one byte
unfoldable pub split : Str → ℕ → List Str
unfolding prepend
split [] sep = [] ∷ []
split (c ∷ s) sep = let rest = split s sep in if c == sep then [] ∷ rest else prepend c rest

unfoldable pub join : List Str → Str → Str
join [] sep = []
join (p ∷ []) sep = p
join (p ∷ q ∷ ps) sep = p ++ (sep ++ join (q ∷ ps) sep)

lower_byte : ℕ → ℕ
lower_byte c = if leb b'A' c && leb c b'Z' then c + 32 else c

-- strings.ToLower, on ASCII
unfoldable pub to_lower : Str → Str
unfolding lower_byte
to_lower = map lower_byte
