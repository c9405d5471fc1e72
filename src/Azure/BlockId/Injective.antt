-- ===== src/Azure/BlockId/Injective.antt =====
-- Different numbers have different block ids.
use cloudstorage.Base.{
  ℕ, zero, suc, ◌+◌, ◌*◌, ◌/◌, ◌%◌, ◌^◌, ◌<◌, if◌then◌else◌, ◌≡◌, refl, sym, ap, ◌∙◌, Bool, true,
  false, Option, none, some, List, [], ◌∷◌, arith, Str, ◌==◌, length, All,
}
use native.Mathlib.Nat.{pow-suc}
use mathlib.Core.Option.{some-injective}
use cloudstorage.Base64.{b64_char, b64_value, encode}
use cloudstorage.Azure.BlockId.{little_endian, make_block_id}

abbrev is_value : Option ℕ → ℕ → Bool
is_value none n = false
is_value (some m) n = m == n

-- Whether the alphabet is read back, for the values below a bound.
read_back : ℕ → Bool
read_back zero = true
read_back (suc n) =
    let rest = read_back n in if is_value (b64_value (b64_char n)) n then rest else false

read_back-all : read_back 64 ≡ true
unfolding read_back b64_value b64_char
read_back-all = refl

read_back-below :
    (x n : ℕ) → x < n → read_back n ≡ true → is_value (b64_value (b64_char x)) x ≡ true
unfolding read_back
read_back-below x zero lt all = absurd (omega arith)
read_back-below x (suc n) lt all = ground (arith, read_back-below x n)

is_value→eq : (o : Option ℕ) (n : ℕ) → is_value o n ≡ true → o ≡ some n
is_value→eq none n h = cc
is_value→eq (some m) n h = ground arith

b64_value-b64_char : (x : ℕ) → x < 64 → b64_value (b64_char x) ≡ some x
b64_value-b64_char x h =
    is_value→eq (b64_value (b64_char x)) x (read_back-below x 64 h read_back-all)

b64_char-inj : (x y : ℕ) → x < 64 → y < 64 → b64_char x ≡ b64_char y → x ≡ y
b64_char-inj x y h k e =
    some-injective x y (sym (b64_value-b64_char x h) ∙ ap b64_value e ∙ b64_value-b64_char y k)

-- The bytes give the number back, as far as they reach.
of_bytes : List ℕ → ℕ
of_bytes [] = 0
of_bytes (b ∷ bs) = b + 256 * of_bytes bs

abbrev IsByte : ℕ → Type 0
IsByte b = b < 256

little_endian-IsByte : (k n : ℕ) → All IsByte (little_endian k n)
unfolding little_endian
little_endian-IsByte zero n = tt
little_endian-IsByte (suc k) n = (omega arith, little_endian-IsByte k (n / 256))

of_bytes-little_endian : (k n : ℕ) → n < 256 ^ k → of_bytes (little_endian k n) ≡ n
unfolding little_endian of_bytes
of_bytes-little_endian zero n h = omega arith
of_bytes-little_endian (suc k) n h =
    let h' : n < 256 ^ k * 256 = rw pow-suc at h in
    let top : n / 256 < 256 ^ k = omega arith in
    omega (arith, of_bytes-little_endian k (n / 256) top)

-- Equal characters at the front of two texts come from equal sextets.
sextet_inj :
    (x y : ℕ) (s t : Str) → x < 64 → y < 64 → b64_char x ∷ s ≡ b64_char y ∷ t → (x ≡ y) × (s ≡ t)
sextet_inj x y s t h k e = (b64_char-inj x y h k (cc), cc)

encode-inj :
    (xs ys : List ℕ)
    → All IsByte xs
    → All IsByte ys
    → length xs ≡ length ys
    → encode xs ≡ encode ys
    → xs ≡ ys
unfolding encode
encode-inj [] [] a b l e = refl
encode-inj [] (_ ∷ _) a b l e = absurd (omega arith)
encode-inj (_ ∷ _) [] a b l e = absurd (omega arith)
encode-inj (x ∷ []) (y ∷ []) a b l e =
    let (p, e1) = sextet_inj (x / 4) (y / 4) _ _ (omega arith) (omega arith) e in
    let (q, _) = sextet_inj (x % 4 * 16) (y % 4 * 16) _ _ (omega arith) (omega arith) e1 in
    let same : x ≡ y = omega arith in ap (λ (b : ℕ). b ∷ []) same
encode-inj (x ∷ x' ∷ []) (y ∷ y' ∷ []) a b l e =
    let (p, e1) = sextet_inj (x / 4) (y / 4) _ _ (omega arith) (omega arith) e in
    let (q, e2) =
      sextet_inj (x % 4 * 16 + x' / 16) (y % 4 * 16 + y' / 16) _ _ (omega arith) (omega arith) e1 in
    let (r, _) = sextet_inj (x' % 16 * 4) (y' % 16 * 4) _ _ (omega arith) (omega arith) e2 in
    let same : x ≡ y = omega arith in let same' : x' ≡ y' = omega arith in cc
encode-inj (x ∷ x' ∷ x'' ∷ xs) (y ∷ y' ∷ y'' ∷ ys) a b l e =
    let (p, e1) = sextet_inj (x / 4) (y / 4) _ _ (omega arith) (omega arith) e in
    let (q, e2) =
      sextet_inj (x % 4 * 16 + x' / 16) (y % 4 * 16 + y' / 16) _ _ (omega arith) (omega arith) e1 in
    let (r, e3) =
      sextet_inj (x' % 16 * 4 + x'' / 64) (y' % 16 * 4 + y'' / 64) _ _ (omega arith) (omega arith)
        e2 in
    let (s, e4) = sextet_inj (x'' % 64) (y'' % 64) _ _ (omega arith) (omega arith) e3 in
    let rest : xs ≡ ys = encode-inj xs ys a.1.1.1 b.1.1.1 (omega arith) e4 in
    let same : x ≡ y = omega arith in
    let same' : x' ≡ y' = omega arith in let same'' : x'' ≡ y'' = omega arith in cc
encode-inj (_ ∷ _) _ a b l e = absurd (omega arith)

length-little_endian : (k n : ℕ) → length (little_endian k n) ≡ k
unfolding little_endian
length-little_endian zero n = refl
length-little_endian (suc k) n = ap suc (length-little_endian k (n / 256))

-- The ids of two different uint64 numbers are different.
pub make_block_id-inj :
    (i j : ℕ) → i < 2 ^ 64 → j < 2 ^ 64 → make_block_id i ≡ make_block_id j → i ≡ j
unfolding make_block_id
make_block_id-inj i j h k e =
    sym (of_bytes-little_endian 8 i h)
    ∙ ap of_bytes (
        encode-inj (little_endian 8 i) (little_endian 8 j) (little_endian-IsByte 8 i)
          (little_endian-IsByte 8 j) (length-little_endian 8 i ∙ sym (length-little_endian 8 j)) e)
    ∙ of_bytes-little_endian 8 j k
