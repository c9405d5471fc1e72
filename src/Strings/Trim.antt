-- ===== src/Strings/Trim.antt =====
-- strings.Trim: the bytes of a cutset are taken off both ends.
use cloudstorage.Base.{
  ℕ, ◌+◌, ◌≤◌, ◌<◌, ◌≡◌, refl, ap, Bool, true, false, ◌||◌, [], ◌∷◌, ◌++◌, arith, Str, ◌==◌,
  if◌then◌else◌, length, All,
}

unfoldable pub in_cutset : Str → ℕ → Bool
in_cutset [] c = false
in_cutset (x ∷ xs) c = x == c || in_cutset xs c

unfoldable pub trim_left : Str → Str → Str
trim_left [] cut = []
trim_left (c ∷ s) cut = let rest = trim_left s cut in if in_cutset cut c then rest else c ∷ s

-- what trim_right leaves of a byte and the trimmed rest
abbrev pub trim_end : Str → ℕ → Str → Str
trim_end cut c [] = if in_cutset cut c then [] else c ∷ []
trim_end cut c (x ∷ xs) = c ∷ x ∷ xs

unfoldable pub trim_right : Str → Str → Str
trim_right [] cut = []
trim_right (c ∷ s) cut = trim_end cut c (trim_right s cut)

unfoldable pub trim : Str → Str → Str
trim s cut = trim_right (trim_left s cut) cut

length-trim_left : (s cut : Str) → length (trim_left s cut) ≤ length s
unfolding trim_left
length-trim_left [] cut = omega arith
length-trim_left (c ∷ s) cut = ground (arith, length-trim_left s cut)

length-trim_end : (cut : Str) (c : ℕ) (r : Str) → length (trim_end cut c r) ≤ length r + 1
length-trim_end cut c [] = ground arith
length-trim_end cut c (x ∷ xs) = omega arith

length-trim_right : (s cut : Str) → length (trim_right s cut) ≤ length s
unfolding trim_right
length-trim_right [] cut = omega arith
length-trim_right (c ∷ s) cut =
    omega (arith, length-trim_end cut c (trim_right s cut), length-trim_right s cut)

-- Trimming a string that begins with a byte of the cutset makes it shorter.
pub length-trim_lt :
    (c : ℕ) (s cut : Str) → in_cutset cut c ≡ true → length (trim (c ∷ s) cut) < length (c ∷ s)
unfolding trim trim_left
length-trim_lt c s cut h =
    rw h (omega (arith, length-trim_right (trim_left s cut) cut, length-trim_left s cut))

-- A string without bytes of the cutset.
abbrev pub Untouched : Str → Str → Type 0
Untouched cut = All (λ c. in_cutset cut c ≡ false)

trim_right-append :
    (s : Str) (q : ℕ) (cut : Str)
    → Untouched cut s
    → in_cutset cut q ≡ true
    → trim_right (s ++ q ∷ []) cut ≡ s
unfolding trim_right
trim_right-append [] q cut u h = rw h
trim_right-append (c ∷ []) q cut u h = rw h (rw (u.0) refl)
trim_right-append (c ∷ d ∷ s) q cut u h =
    ap (trim_end cut c) (trim_right-append (d ∷ s) q cut u.1 h)

trim_left-append :
    (s : Str) (q : ℕ) (cut : Str)
    → Untouched cut s
    → in_cutset cut q ≡ true
    → trim_right (trim_left (s ++ q ∷ []) cut) cut ≡ s
unfolding trim_left trim_right
trim_left-append [] q cut u h = rw h
trim_left-append (c ∷ s) q cut u h = rw (u.0) (trim_right-append (c ∷ s) q cut u h)

-- Quotes around a text without quotes come off, and nothing else does.
pub trim-quoted :
    (s : Str) (q : ℕ) (cut : Str)
    → Untouched cut s
    → in_cutset cut q ≡ true
    → trim (q ∷ (s ++ q ∷ [])) cut ≡ s
unfolding trim trim_left
trim-quoted s q cut u h = rw h (trim_left-append s q cut u h)
