-- ===== src/Sftp/Addr.antt =====
-- sftpAddr of sftp/store.go: the address of a host and a port.
use cloudstorage.Base.{
  ℕ, zero, suc, ◌+◌, ◌/◌, ◌%◌, ◌≡◌, refl, sym, ap, ◌∙◌, ◌≢◌, true, false, Option, none, some, [],
  ◌∷◌, ◌++◌, arith, Str, lit, str_eq, str_eq_iff, ltb, ◌==◌, if◌then◌else◌, length, take, drop,
  drop-nil, All, message, Outcome, ok, fail,
}
use native.Mathlib.Nat.{zero-add, suc-add}
use cloudstorage.Base.Int.{ℤ, pos, positive}
use cloudstorage.Strings.{index, has_prefix}

-- The decimal digits of a number, on fuel; the number itself is enough.
digits : ℕ → ℕ → Str
digits zero n = []
digits (suc fuel) n =
    let front = digits fuel (n / 10) in
    if ltb n 10 then (n + b'0') ∷ [] else front ++ (n % 10 + b'0') ∷ []

-- `%v` of a number that is not negative
unfoldable pub decimal : ℕ → Str
unfolding digits
decimal n = digits (n + 1) n

abbrev from_index : Option ℕ → ℕ → Str → Str
from_index none k host = host
from_index (some i) k host = drop (i + k) host

abbrev to_index : Option ℕ → Str → Str
to_index none host = host
to_index (some i) host = take i host

-- The host without a scheme in front and a port behind.
unfoldable pub bare_host : Str → Str
bare_host host =
    let h = from_index (index host (lit "://")) 3 host in to_index (index h (lit ":")) h

unfoldable pub sftp_addr : Str → ℤ → Outcome Str
unfolding bare_host decimal
sftp_addr host port =
    if str_eq (bare_host host) []
    then fail (message "host name not recognized %s")
    else elim (positive port) [
      | none ↦ fail (message "port number must be greater than 0")
      | some p ↦ ok (bare_host host ++ b':' ∷ decimal p)
    ]

-- No colon stands in the text.
abbrev NoColon : Str → Type 0
NoColon = All (λ c. (c == b':') ≡ false)

index-absent : (s sub : Str) → NoColon s → index s (b':' ∷ sub) ≡ none
unfolding index has_prefix
index-absent [] sub h = refl
index-absent (c ∷ s) sub h = rw (h.0, index-absent s sub h.1)

index-behind :
    (s sub t : Str)
    → NoColon s
    → has_prefix t (b':' ∷ sub) ≡ true
    → index (s ++ t) (b':' ∷ sub) ≡ some (length s)
unfolding index has_prefix
index-behind [] sub [] h p = cc
index-behind [] sub (c ∷ t) h p = rw p
index-behind (c ∷ s) sub t h p = rw (h.0, index-behind s sub t h.1 p)

drop-append : (s t : Str) → drop (length s) (s ++ t) ≡ t
drop-append [] t = refl
drop-append (c ∷ s) t = drop-append s t

drop-drop : (i k : ℕ) (s : Str) → drop (i + k) s ≡ drop k (drop i s)
drop-drop zero k s = rw zero-add
drop-drop (suc i) k [] = drop-nil (suc i + k) ∙ sym (drop-nil k)
drop-drop (suc i) k (c ∷ s) = rw suc-add (drop-drop i k s)

take-append : (s t : Str) → take (length s) (s ++ t) ≡ s
take-append [] t = refl
take-append (c ∷ s) t = ap (λ (r : Str). c ∷ r) (take-append s t)

-- The spellings of a host name: alone or behind a scheme, with a port behind it or without one.
pub data Spelled (name : Str) : Str → Type 0 where
  plain : Spelled name name
  ported :
      (tail : Str)
      → NoColon tail
      → has_prefix tail (lit "//") ≡ false
      → Spelled name (name ++ b':' ∷ tail)
  schemed : (scheme : Str) → NoColon scheme → Spelled name (scheme ++ (lit "://" ++ name))
  schemed_ported :
      (scheme tail : Str)
      → NoColon scheme
      → Spelled name (scheme ++ (lit "://" ++ (name ++ b':' ∷ tail)))

index-ported :
    (name tail : Str)
    → NoColon name
    → NoColon tail
    → has_prefix tail (lit "//") ≡ false
    → index (name ++ b':' ∷ tail) (lit "://") ≡ none
unfolding index has_prefix
index-ported [] tail h k n = rw (n, index-absent tail (lit "//") k)
index-ported (c ∷ name) tail h k n = rw (h.0, index-ported name tail h.1 k n)

-- What the first step of sftpAddr leaves.
abbrev unschemed : Str → Str
unschemed host = from_index (index host (lit "://")) 3 host

unschemed-schemed :
    (scheme host : Str) → NoColon scheme → unschemed (scheme ++ (lit "://" ++ host)) ≡ host
unschemed-schemed scheme host h =
    rw (index-behind scheme (lit "//") (lit "://" ++ host) h (unfold has_prefix in refl))
      (drop-drop (length scheme) 3 _ ∙ ap (drop 3) (drop-append scheme (lit "://" ++ host)))

unported :
    (name tail : Str)
    → NoColon name
    → to_index (index (name ++ b':' ∷ tail) (lit ":")) (name ++ b':' ∷ tail) ≡ name
unported name tail h =
    rw (index-behind name [] (b':' ∷ tail) h (unfold has_prefix in refl))
      (take-append name (b':' ∷ tail))

bare_host-spelled : (name host : Str) → NoColon name → Spelled name host → bare_host host ≡ name
unfolding bare_host
bare_host-spelled name host h plain = rw (index-absent name (lit "//") h, index-absent name [] h)
bare_host-spelled name host h (ported tail k n) =
    rw (index-ported name tail h k n) (unported name tail h)
bare_host-spelled name host h (schemed scheme k) =
    rw (unschemed-schemed scheme name k) (rw (index-absent name [] h))
bare_host-spelled name host h (schemed_ported scheme tail k) =
    rw (unschemed-schemed scheme (name ++ b':' ∷ tail) k) (unported name tail h)

-- A host name that is not empty and has no colon gives one address in each of its spellings, with
-- a port above 0; with any other port, and for an empty name, there is an error.
pub sftp_addr-spelled :
    (name host : Str)
    → NoColon name
    → Spelled name host
    → ((port : ℤ) → name ≡ [] → sftp_addr host port ≡ fail (message "host name not recognized %s"))
      × ((p : ℕ) → name ≢ [] → sftp_addr host (pos (suc p)) ≡ ok (name ++ b':' ∷ decimal (suc p)))
      × ((port : ℤ)
          → name ≢ []
          → positive port ≡ none
          → sftp_addr host port ≡ fail (message "port number must be greater than 0"))
unfolding sftp_addr
sftp_addr-spelled name host h s = (
  λ port e. rw (bare_host-spelled name host h s) (ground (arith, str_eq_iff name [])),
  λ p e. rw (bare_host-spelled name host h s) (ground (arith, str_eq_iff name [])),
  λ port e n. rw (bare_host-spelled name host h s) (ground (arith, str_eq_iff name [])),
)
