-- ===== src/Query/Behind.antt =====
-- The part of an ascending list of keys that a list call with a prefix and a marker answers.
use cloudstorage.Base.{
  ◌≡◌, refl, sym, ◌∙◌, inl, inr, Bool, true, false, ◌&&◌, List, [], ◌∷◌, ◌++◌, arith, Bool-cases,
  Str, keep,
}
use mathlib.Core.Path.{subst}
use cloudstorage.Query.{str_ltb}
use cloudstorage.Query.Sorting.{str_ltb_irrefl, str_ltb-asym}

str_ltb_trans : (r s t : Str) → str_ltb r s ≡ true → str_ltb s t ≡ true → str_ltb r t ≡ true
unfolding str_ltb
str_ltb_trans [] [] t g h = cc
str_ltb_trans [] (d ∷ s) [] g h = cc
str_ltb_trans [] (d ∷ s) (e ∷ t) g h = refl
str_ltb_trans (c ∷ r) [] t g h = cc
str_ltb_trans (c ∷ r) (d ∷ s) [] g h = cc
str_ltb_trans (c ∷ r) (d ∷ s) (e ∷ t) g h = ground (arith, str_ltb_trans r s t)

module _ {O : Type 0} (key : O → Str) where
  -- The keys ascend, and the first is above a bound.
  abbrev pub Ascends : Str → List O → Type 0
  Ascends m [] = Unit
  Ascends m (x ∷ xs) = (str_ltb m (key x) ≡ true) × Ascends (key x) xs

  module _ (p : O → Bool) where
    -- The objects that are wanted and whose keys are behind a marker
    abbrev pub behind : Str → List O → List O
    behind m = keep (λ x. p x && str_ltb m (key x))

    Ascends-below : (m n : Str) (xs : List O) → str_ltb m n ≡ true → Ascends n xs → Ascends m xs
    Ascends-below m n [] h a = tt
    Ascends-below m n (x ∷ xs) h a = (str_ltb_trans m n (key x) h a.0, a.1)

    behind-all : (m : Str) (xs : List O) → Ascends m xs → behind m xs ≡ keep p xs
    behind-all m [] a = refl
    behind-all m (x ∷ xs) a =
        ground (arith, behind-all m xs (Ascends-below m (key x) xs a.0 a.1), a.0)

    pub behind-holds :
        (m : Str) (xs init ys : List O) (z : O)
        → behind m xs ≡ init ++ z ∷ ys
        → str_ltb m (key z) ≡ true
    behind-holds m [] [] ys z h = cc
    behind-holds m [] (i ∷ init) ys z h = cc
    behind-holds m (x ∷ xs) [] ys z h = ground (arith, behind-holds m xs [] ys z)
    behind-holds m (x ∷ xs) (i ∷ init) ys z h =
        ground (arith, behind-holds m xs (i ∷ init) ys z, behind-holds m xs init ys z)

    -- Where an object is behind the marker, so are all behind it.
    behind-same :
        (m : Str) (x : O) (xs : List O)
        → str_ltb m (key x) ≡ true
        → Ascends (key x) xs
        → behind (key x) xs ≡ behind m xs
    behind-same m x xs h a =
        behind-all (key x) xs a ∙ sym (behind-all m xs (Ascends-below m (key x) xs h a))

    behind-passed :
        (m : Str) (x z : O)
        → (p x && str_ltb m (key x)) ≡ false
        → str_ltb m (key z) ≡ true
        → (p x && str_ltb (key z) (key x)) ≡ false
    behind-passed m x z out h = ground (arith, str_ltb_trans m (key z) (key x))

    -- Behind the key of one of the objects come the objects behind it.
    pub behind-next :
        (m n : Str) (xs init ys : List O) (z : O)
        → Ascends n xs
        → behind m xs ≡ init ++ z ∷ ys
        → behind (key z) xs ≡ ys
    behind-next m n [] [] ys z a h = cc
    behind-next m n [] (i ∷ init) ys z a h = cc
    behind-next m n (x ∷ xs) [] ys z a h = elim (Bool-cases (p x && str_ltb m (key x))) [
      | inr out ↦
          let rest : behind m xs ≡ z ∷ ys = rw out at h in
          rw (behind-passed m x z out (behind-holds m xs [] ys z rest))
            (behind-next m (key x) xs [] ys z a.1 rest)
      | inl here ↦
          let found : x ∷ behind m xs ≡ z ∷ ys = rw here at h in
          let first : x ≡ z = cc in
          let rest : behind m xs ≡ ys = cc in
          let off : (p x && str_ltb (key x) (key x)) ≡ false =
            ground (arith, str_ltb_irrefl (key x)) in
          let skipped : behind (key x) (x ∷ xs) ≡ ys =
            rw off (behind-same m x xs (ground arith) a.1 ∙ rest) in
          subst (λ w. behind (key w) (x ∷ xs) ≡ ys) first skipped
    ]
    behind-next m n (x ∷ xs) (i ∷ init) ys z a h = elim (Bool-cases (p x && str_ltb m (key x))) [
      | inr out ↦
          let rest : behind m xs ≡ i ∷ (init ++ z ∷ ys) = rw out at h in
          rw (behind-passed m x z out (behind-holds m xs (i ∷ init) ys z rest))
            (behind-next m (key x) xs (i ∷ init) ys z a.1 rest)
      | inl here ↦
          let found : x ∷ behind m xs ≡ i ∷ (init ++ z ∷ ys) = rw here at h in
          let rest : behind m xs ≡ init ++ z ∷ ys = cc in
          let above =
            behind-holds (key x) xs init ys z (behind-same m x xs (ground arith) a.1 ∙ rest) in
          let off : (p x && str_ltb (key z) (key x)) ≡ false =
            ground (arith, str_ltb-asym (key x) (key z)) in
          rw off (behind-next m (key x) xs init ys z a.1 rest)
    ]
