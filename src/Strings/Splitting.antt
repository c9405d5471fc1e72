-- ===== src/Strings/Splitting.antt =====
-- Split and Join by one byte are inverse on parts without that byte.
use cloudstorage.Base.{
  ℕ, ◌≡◌, refl, ap, ◌∙◌, inl, inr, false, List, [], ◌∷◌, ◌++◌, arith, Bool-cases, Str, ◌==◌, All,
}
use cloudstorage.Strings.{prepend, split, join}

-- No byte of a part is the separator.
abbrev pub IsPart : ℕ → Str → Type 0
IsPart sep = All (λ c. (c == sep) ≡ false)

prepend-IsPart :
    (c sep : ℕ) (ps : List Str)
    → (c == sep) ≡ false
    → All (IsPart sep) ps
    → All (IsPart sep) (prepend c ps)
unfolding prepend
prepend-IsPart c sep [] h a = ((h, tt), tt)
prepend-IsPart c sep (p ∷ ps) h a = ((h, a.0), a.1)

pub split-IsPart : (s : Str) (sep : ℕ) → All (IsPart sep) (split s sep)
unfolding split
split-IsPart [] sep = (tt, tt)
split-IsPart (c ∷ s) sep = elim (Bool-cases (c == sep)) [
  | inl at ↦ rw at (tt, split-IsPart s sep)
  | inr off ↦ rw off (prepend-IsPart c sep (split s sep) off (split-IsPart s sep))
]

-- A part alone is not split.
pub split-part : (p : Str) (sep : ℕ) → IsPart sep p → split p sep ≡ p ∷ []
unfolding split
split-part [] sep h = refl
split-part (c ∷ p) sep h = rw (h.0, split-part p sep h.1)

split-append : (p s : Str) (sep : ℕ) → IsPart sep p → split (p ++ sep ∷ s) sep ≡ p ∷ split s sep
unfolding split
split-append [] s sep h = ground arith
split-append (c ∷ p) s sep h = rw (h.0, split-append p s sep h.1)

pub split-join :
    (p : Str) (ps : List Str) (sep : ℕ)
    → All (IsPart sep) (p ∷ ps)
    → split (join (p ∷ ps) (sep ∷ [])) sep ≡ p ∷ ps
unfolding join
split-join p [] sep h = split-part p sep h.0
split-join p (q ∷ ps) sep h =
    split-append p _ sep h.0 ∙ ap (λ rest. p ∷ rest) (split-join q ps sep h.1)
