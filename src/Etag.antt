-- ===== src/Etag.antt =====
-- CleanETag of file_helper.go. A pass of its loop returns the etag that the next pass looks at, and
-- `none` on the early return.
pub mod Laws
use cloudstorage.Base.{ℕ, zero, suc, Option, none, some, [], ◌∷◌, Str, lit, if◌then◌else◌, length}
use cloudstorage.Strings.{has_prefix, replace_first}
use cloudstorage.Strings.Trim.{trim}

-- The two characters \" and the one character ".
abbrev pub escaped_quote : Str
escaped_quote = 92 ∷ 34 ∷ []

abbrev pub quote : Str
quote = 34 ∷ []

abbrev pub weak : Str
weak = lit "W/"

unfoldable pub etag_pass : Str → Option Str
etag_pass etag =
    if has_prefix etag escaped_quote
    then some (trim etag escaped_quote)
    else if has_prefix etag quote
    then some (trim etag quote)
    else if has_prefix etag weak
    then some (replace_first etag weak [])
    else none

-- `for { … }` on fuel; `none` means that the fuel ran out.
etag_loop : ℕ → Str → Option Str
etag_loop zero etag = none
etag_loop (suc fuel) etag = elim (etag_pass etag) [
  | none ↦ some etag
  | some shorter ↦ etag_loop fuel shorter
]

unfoldable pub clean_etag : Str → Option Str
unfolding etag_loop
clean_etag etag = etag_loop (suc (length etag)) etag
