-- ===== src/FileHelper/Laws.antt =====
-- What EnsureContextType makes of metadata.
use cloudstorage.Base.{
  ◌≡◌, ◌≢◌, inl, inr, none, some, arith, Option-cases, Str, str_eq_iff, str_eq_refl,
}
use cloudstorage.Base.Dict
use cloudstorage.Base.Dict.{Dict}
use cloudstorage.FileHelper.{content_type_key, content_type, ensure_context_type}

module _ (type_by_extension : Str → Str) where
  -- The type that is returned is the one under the key of the metadata afterwards; a type that was
  -- there is kept, and one that was not is that of the name. No other key changes, and doing it
  -- again changes nothing.
  pub ensure_context_type_lem :
      (o : Str) (md : Dict Str)
      → let (ctype, md') = ensure_context_type type_by_extension o md in
        (Dict.lookup content_type_key md' ≡ some ctype)
        × ((c : Str) → Dict.lookup content_type_key md ≡ some c → ctype ≡ c)
        × (Dict.lookup content_type_key md ≡ none → ctype ≡ content_type type_by_extension o)
        × ((k : Str) → k ≢ content_type_key → Dict.lookup k md' ≡ Dict.lookup k md)
        × ((p : Str) → ensure_context_type type_by_extension p md' ≡ (ctype, md'))
  unfolding ensure_context_type
  ensure_context_type_lem o md = elim (Option-cases (Dict.lookup content_type_key md)) [
    | inl none_there ↦
        let made = content_type type_by_extension o in
        let here = Dict.lookup-insert content_type_key content_type_key made md in
        let same = str_eq_refl content_type_key in
        (
          ground (arith, here, same),
          λ c e. cc (none_there, e),
          λ e. ground arith,
          λ k ne.
              ground (
                arith,
                Dict.lookup-insert content_type_key k made md,
                str_eq_iff content_type_key k,
              ),
          λ p. ground (arith, here, same),
        )
    | inr (c, there) ↦ (
      ground arith,
      λ d e. ground arith,
      λ e. cc (there, e),
      λ k ne. ground arith,
      λ p. ground arith,
    )
  ]
