-- ===== src/Etag/Laws.antt =====
-- CleanETag ends, what it returns, and on which tags it is the inverse of quoting.
use cloudstorage.Base.{
  ℕ, zero, suc, ◌<◌, ◌≡◌, refl, ◌∙◌, false, none, some, Option-cases, inl, inr, [], ◌∷◌, ◌++◌,
  arith, Str, lit, length,
}
use cloudstorage.Strings.{has_prefix, replace_first}
use cloudstorage.Strings.Trim.{in_cutset, length-trim_lt, Untouched, trim-quoted}
use cloudstorage.Etag.{escaped_quote, quote, weak, etag_pass, etag_loop, clean_etag}

etag_pass-lt : (etag shorter : Str) → etag_pass etag ≡ some shorter → length shorter < length etag
unfolding etag_pass has_prefix replace_first in_cutset
etag_pass-lt [] s h = cc
etag_pass-lt (c ∷ []) s h = ground (arith, length-trim_lt c [] quote)
etag_pass-lt (c ∷ d ∷ etag) s h =
    ground (arith, length-trim_lt c (d ∷ etag) quote, length-trim_lt c (d ∷ etag) escaped_quote)

etag_loop-stop :
    (fuel : ℕ) (etag : Str) → etag_pass etag ≡ none → etag_loop (suc fuel) etag ≡ some etag
unfolding etag_loop
etag_loop-stop fuel etag e = rw (e, etag_loop)

etag_loop-step :
    (fuel : ℕ) (etag s : Str)
    → etag_pass etag ≡ some s
    → etag_loop (suc fuel) etag ≡ etag_loop fuel s
unfolding etag_loop
etag_loop-step fuel etag s e = rw (e, etag_loop)

etag_loop-done :
    (fuel : ℕ) (etag : Str)
    → length etag < fuel
    → (r : Str) × (etag_loop fuel etag ≡ some r) × (etag_pass r ≡ none)
etag_loop-done zero etag h = absurd (omega arith)
etag_loop-done (suc fuel) etag h = elim (Option-cases (etag_pass etag)) [
  | inl done ↦ (etag, etag_loop-stop fuel etag done, done)
  | inr (s, e) ↦
      rw (etag_loop-step fuel etag s e)
        (etag_loop-done fuel s (omega (arith, etag_pass-lt etag s e)))
]

-- The fuel is enough for every etag, and no rule of the loop applies to the result.
pub clean_etag_total : (etag : Str) → (r : Str) × (clean_etag etag ≡ some r) × (etag_pass r ≡ none)
unfolding clean_etag
clean_etag_total etag = etag_loop-done (suc (length etag)) etag (omega arith)

-- A tag that no rule of the loop applies to: no surrounding quotes and no W/ in front.
abbrev pub IsBare : Str → Type 0
IsBare v = Untouched quote v × Untouched escaped_quote v × (has_prefix v weak ≡ false)

bare-pass : (v : Str) → IsBare v → etag_pass v ≡ none
unfolding etag_pass has_prefix in_cutset
bare-pass [] h = refl
bare-pass (c ∷ []) h = ground arith
bare-pass (c ∷ d ∷ v) h = ground arith

quoted-pass : (v : Str) → IsBare v → etag_pass (34 ∷ (v ++ 34 ∷ [])) ≡ some v
unfolding etag_pass has_prefix
quoted-pass v h = rw (trim-quoted v 34 quote h.0 (unfold in_cutset in refl))

weak-pass : (v : Str) → etag_pass (lit "W/" ++ v) ≡ some v
unfolding etag_pass has_prefix replace_first
weak-pass v = refl

-- A bare tag is what is left of its strong spelling "v" and of its weak spelling W/"v".
pub clean_etag-spelled :
    (v : Str)
    → IsBare v
    → (clean_etag v ≡ some v)
      × (clean_etag (34 ∷ (v ++ 34 ∷ [])) ≡ some v)
      × (clean_etag (lit "W/" ++ 34 ∷ (v ++ 34 ∷ [])) ≡ some v)
unfolding clean_etag
clean_etag-spelled v h = (
  stop (length v),
  etag_loop-step (suc n) (34 ∷ (v ++ 34 ∷ [])) v (quoted-pass v h) ∙ stop n,
  etag_loop-step (suc (suc (suc n))) _ (34 ∷ (v ++ 34 ∷ [])) (weak-pass _)
      ∙ etag_loop-step (suc (suc n)) _ v (quoted-pass v h)
      ∙ stop (suc n),
)
  where
    stop : (n : ℕ) → etag_loop (suc n) v ≡ some v
    stop n = etag_loop-stop n v (bare-pass v h)

    n : ℕ
    n = length (v ++ 34 ∷ [])
