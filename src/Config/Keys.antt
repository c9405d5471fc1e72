-- ===== src/Config/Keys.antt =====
-- What Validate leaves in a JwtConf.
use cloudstorage.Base.{
  ℕ, ◌≡◌, refl, sym, ap, ◌∙◌, ◌≢◌, ◌↔◌, ◌⊎◌, inl, inr, true, false, some, List, [], ◌∷◌, ◌++◌,
  arith, Bool-cases, Option-cases, Str, lit, str_eq, str_eq_iff, All, ok,
}
use mathlib.Core.Path.{subst}
use mathlib.Core.Option.{some-injective}
use cloudstorage.Strings.{has_prefix, split, join}
use cloudstorage.Strings.Splitting.{IsPart, split-IsPart, split-part, split-join}
use cloudstorage.Base64.{decode}
use cloudstorage.Config.{
  JwtConf, newline, first_body, fixed_key, fix_key, key_bytes, checked, validate,
}

first_body-IsPart :
    (parts : List Str) (l : Str)
    → All (IsPart newline) parts
    → first_body parts ≡ some l
    → IsPart newline l
unfolding first_body
first_body-IsPart [] l h e = cc
first_body-IsPart (p ∷ parts) l h e = elim (Bool-cases (has_prefix p (lit "---"))) [
  | inl dashes ↦ first_body-IsPart parts l h.1 (rw dashes at e)
  | inr body ↦
      let is_p : some p ≡ some l = rw body at e in
      subst (IsPart newline) (some-injective p l is_p) h.0
]

fixed_key-line :
    (parts : List Str) (key : Str)
    → All (IsPart newline) parts
    → (fixed_key parts key ≡ key) ⊎ IsPart newline (fixed_key parts key)
unfolding fixed_key
fixed_key-line [] key h = inl refl
fixed_key-line (p ∷ []) key h = inl refl
fixed_key-line (p ∷ q ∷ parts) key h = elim (Option-cases (first_body (p ∷ q ∷ parts))) [
  | inl e ↦ inl (rw (e, fixed_key))
  | inr (l, e) ↦ inr (rw (e, fixed_key) (first_body-IsPart (p ∷ q ∷ parts) l h e))
]

fixed_key-again :
    (key : Str) → let r = fixed_key (split key newline) key in fixed_key (split r newline) r ≡ r
fixed_key-again key = elim (fixed_key-line (split key newline) key (split-IsPart key newline)) [
  | inl same ↦ rw same same
  | inr line ↦ rw (split-part _ newline line) (unfold fixed_key in refl)
]

settled : (j : JwtConf) → (validate (validate j).1).1 ≡ (validate j).1
unfolding validate fix_key str_eq
settled j = ground (arith, fixed_key-again j.private_key, fixed_key-again j.private_key_deprecated)

-- Validate a second time returns what it returned, and changes nothing.
pub validate_idem : (j : JwtConf) → validate (validate j).1 ≡ validate j
unfolding validate
validate_idem j = ap (λ (k : JwtConf). (checked (key_bytes k), k)) (settled j)

-- The lines of a key in PEM form: every line in front of the key begins with three dashes.
abbrev pub pem : List Str → Str → List Str → Str
pem headers body footers = join (headers ++ body ∷ footers) (newline ∷ [])

first_body-pem :
    (headers : List Str) (body : Str) (footers : List Str)
    → All (λ l. has_prefix l (lit "---") ≡ true) headers
    → has_prefix body (lit "---") ≡ false
    → first_body (headers ++ body ∷ footers) ≡ some body
unfolding first_body
first_body-pem [] body footers h b = rw b
first_body-pem (l ∷ headers) body footers h b = rw (h.0) (first_body-pem headers body footers h.1 b)

fixed_key-first :
    (ps : List Str) (key body : Str)
    → first_body ps ≡ some body
    → (ps ≡ body ∷ [] → key ≡ body)
    → fixed_key ps key ≡ body
unfolding first_body fixed_key
fixed_key-first [] key body e h = cc
fixed_key-first (p ∷ []) key body e h = h (ap (λ l. l ∷ []) (ground arith))
fixed_key-first (p ∷ q ∷ ps) key body e h = rw (e, fixed_key)

split-pem :
    (headers : List Str) (body : Str) (footers : List Str)
    → All (IsPart newline) (headers ++ body ∷ footers)
    → split (pem headers body footers) newline ≡ headers ++ body ∷ footers
split-pem [] body footers h = split-join body footers newline h
split-pem (l ∷ headers) body footers h = split-join l (headers ++ body ∷ footers) newline h

abbrev IsBase64 : Str → Type 0
IsBase64 text = (text ≢ []) × ((key : List ℕ) × (decode text ≡ some key))

accepts_iff : (j : JwtConf) → (checked (key_bytes j) ≡ ok tt) ↔ IsBase64 j.private_key
unfolding checked key_bytes
accepts_iff j = elim (Option-cases (decode j.private_key)) [
  | inl bad ↦ (λ h. ground (arith, str_eq_iff j.private_key []), λ g. cc (bad, g.1.1))
  | inr (key, good) ↦ (
    λ h. (ground (arith, str_eq_iff j.private_key []), (key, good)),
    λ g. ground (arith, g.0, str_eq_iff j.private_key []),
  )
]

pem_key :
    (j : JwtConf) (headers : List Str) (body : Str) (footers : List Str)
    → All (IsPart newline) (headers ++ body ∷ footers)
    → All (λ l. has_prefix l (lit "---") ≡ true) headers
    → has_prefix body (lit "---") ≡ false
    → j.private_key_deprecated ≡ []
    → j.private_key ≡ pem headers body footers
    → (validate j).1.private_key ≡ body
unfolding validate fix_key str_eq
pem_key j headers body footers lines dashes plain new e = ground (
  arith,
  str_eq_iff j.private_key_deprecated [],
  fixed_key-first (split j.private_key newline) j.private_key body
      (rw parts (first_body-pem headers body footers dashes plain))
      (λ alone.
        e
        ∙ ap (λ (ps : List Str). join ps (newline ∷ [])) (sym parts ∙ alone)
        ∙ unfold join in refl),
)
  where
    parts : split j.private_key newline ≡ headers ++ body ∷ footers
    parts = rw e (split-pem headers body footers lines)

-- Of a key of several lines, the first that does not begin with three dashes, behind lines that do,
-- is taken over, and all behind it is dropped: Validate accepts it exactly when that line is not
-- empty and is base64.
pub validate-pem :
    (j : JwtConf) (headers : List Str) (body : Str) (footers : List Str)
    → All (IsPart newline) (headers ++ body ∷ footers)
    → All (λ l. has_prefix l (lit "---") ≡ true) headers
    → has_prefix body (lit "---") ≡ false
    → j.private_key_deprecated ≡ []
    → j.private_key ≡ pem headers body footers
    → ((validate j).1.private_key ≡ body)
      × (((validate j).0 ≡ ok tt) ↔ ((body ≢ []) × ((key : List ℕ) × (decode body ≡ some key))))
unfolding validate
validate-pem j headers body footers lines dashes plain new e =
    let k = pem_key j headers body footers lines dashes plain new e in
    (k, subst (λ (text : Str). ((validate j).0 ≡ ok tt) ↔ IsBase64 text) k (accepts_iff _))
