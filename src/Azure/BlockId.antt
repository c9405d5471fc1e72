-- ===== src/Azure/BlockId.antt =====
-- makeBlockID of azure/store.go: eight bytes of the number, the lowest first, in base64.
use cloudstorage.Base.{
  ℕ, zero, suc, ◌+◌, ◌-◌, ◌*◌, ◌/◌, ◌%◌, ◌^◌, ◌≤◌, ◌<◌, ◌≡◌, refl, sym, ap, ◌∙◌, ◌≢◌, ◌↔◌, ◌⊎◌, inl,
  inr, Bool, true, false, not, ◌&&◌, ◌||◌, Option, none, some, List, [], ◌∷◌, ◌++◌, map, arith,
  Bool-cases, Option-cases, present, Str, String, lit, str_eq, str_eq_iff, str_eq_refl, ltb, leb,
  ◌==◌, ==_iff, if◌then◌else◌, length, take, drop, keep, All, get_elem?, length-append, length-drop,
  Err, object_not_found, object_exists, iterator_done, canceled, deadline_exceeded, not_exist,
  exist, file_closed, bad_handle, eof, message, Outcome, ok, fail, Act, return, throw, attempt,
  ◌>>=◌, ◌>>◌,
}
pub mod Injective
use cloudstorage.Base64.{encode}

-- binary.LittleEndian.PutUint64 and its like of other sizes
unfoldable pub little_endian : ℕ → ℕ → List ℕ
little_endian zero n = []
little_endian (suc k) n = (n % 256) ∷ little_endian k (n / 256)

unfoldable pub make_block_id : ℕ → Str
unfolding little_endian
make_block_id id = encode (little_endian 8 id)
