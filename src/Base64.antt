-- ===== src/Base64.antt =====
-- Go's base64.StdEncoding: the encoding of bytes with padding, and the decoding, which leaves out
-- line breaks.
use cloudstorage.Base.{
  ℕ, ◌+◌, ◌-◌, ◌*◌, ◌/◌, ◌%◌, not, ◌&&◌, ◌||◌, Option, none, some, List, [], ◌∷◌, Str, str_eq, ltb,
  leb, ◌==◌, if◌then◌else◌, keep,
}

-- The character of six bits.
unfoldable pub b64_char : ℕ → ℕ
b64_char n =
    if ltb n 26
    then n + b'A'
    else if ltb n 52
    then n - 26 + b'a'
    else if ltb n 62
    then n - 52 + b'0'
    else if n == 62
    then b'+'
    else b'/'

unfoldable pub b64_value : ℕ → Option ℕ
b64_value c =
    if leb b'A' c && leb c b'Z'
    then some (c - b'A')
    else if leb b'a' c && leb c b'z'
    then some (c - b'a' + 26)
    else if leb b'0' c && leb c b'9'
    then some (c - b'0' + 52)
    else if c == b'+'
    then some 62
    else if c == b'/'
    then some 63
    else none

abbrev pub pad : ℕ
pad = b'='

-- EncodeToString
unfoldable pub encode : List ℕ → Str
unfolding b64_char
encode [] = []
encode (a ∷ []) = b64_char (a / 4) ∷ b64_char (a % 4 * 16) ∷ pad ∷ pad ∷ []
encode (a ∷ b ∷ []) =
    b64_char (a / 4) ∷ b64_char (a % 4 * 16 + b / 16) ∷ b64_char (b % 16 * 4) ∷ pad ∷ []
encode (a ∷ b ∷ c ∷ rest) =
    b64_char (a / 4)
    ∷ b64_char (a % 4 * 16 + b / 16)
    ∷ b64_char (b % 16 * 4 + c / 64)
    ∷ b64_char (c % 64)
    ∷ encode rest

push_quad : Option ℕ → Option ℕ → Option ℕ → Option ℕ → Option (List ℕ) → Option (List ℕ)
push_quad (some p) (some q) (some r) (some s) (some rest) =
    some ((p * 4 + q / 16) ∷ (q % 16 * 16 + r / 4) ∷ (r % 4 * 64 + s) ∷ rest)
push_quad _ _ _ _ _ = none

last_two : Option ℕ → Option ℕ → Option (List ℕ)
last_two (some p) (some q) = some ((p * 4 + q / 16) ∷ [])
last_two _ _ = none

last_three : Option ℕ → Option ℕ → Option ℕ → Option (List ℕ)
last_three (some p) (some q) (some r) = some ((p * 4 + q / 16) ∷ (q % 16 * 16 + r / 4) ∷ [])
last_three _ _ _ = none

-- Padding is allowed in the last four characters only.
decode_quads : Str → Option (List ℕ)
unfolding push_quad last_two last_three b64_value
decode_quads [] = some []
decode_quads (p ∷ q ∷ r ∷ s ∷ rest) =
    let more = decode_quads rest in
    if s == pad && str_eq rest []
    then (if r == pad
        then last_two (b64_value p) (b64_value q)
        else last_three (b64_value p) (b64_value q) (b64_value r))
    else push_quad (b64_value p) (b64_value q) (b64_value r) (b64_value s) more
decode_quads _ = none

-- DecodeString
unfoldable pub decode : Str → Option (List ℕ)
unfolding decode_quads
decode s = decode_quads (keep (λ c. not (c == 10 || c == 13)) s)
