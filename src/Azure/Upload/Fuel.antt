-- ===== src/Azure/Upload/Fuel.antt =====
-- uploadMultiPart with fuel to spare.
use cloudstorage.Base.{
  ℕ, zero, suc, ◌<◌, ◌≡◌, refl, sym, ap, ◌∙◌, List, [], ◌∷◌, ◌++◌, arith, Str, length, Err, Outcome,
  ok, fail,
}
use cloudstorage.Base.Dict.{Dict}
use cloudstorage.Azure.BlockId.{make_block_id}
use cloudstorage.Azure.Upload.{
  BlobService, Reader, next_raw_id, staged, was_read, block_loop, finish, upload_multi_part,
}
use cloudstorage.Azure.Upload.Content.{Reads, ended, gave, block_loop-gave, block_loop-ended}

module _ {R B : Type 0} (read : Reader R) (service : BlobService B) (name : Str) where
  staged-same :
      (again other : List Str → R → B → Outcome (List Str) × (R × B)) (id : Str) (blocks : List Str)
      (r : R) (x : Outcome (Unit {0}) × B)
      → ((bs : List Str) (b : B) → again bs r b ≡ other bs r b)
      → staged read service name again id blocks r x ≡ staged read service name other id blocks r x
  unfolding staged
  staged-same again other id blocks r (ok u, b) same = same (blocks ++ id ∷ []) b
  staged-same again other id blocks r (fail e, b) same = refl

  -- More fuel changes nothing.
  block_loop-more :
      (fuel k : ℕ) {r r' : R} {cs : List Str} {e : Err}
      → Reads read r cs e r'
      → length cs < fuel
      → (blocks : List Str) (b : B)
      → block_loop read service name fuel k blocks r b
        ≡ block_loop read service name (suc (length cs)) k blocks r b
  unfolding was_read
  block_loop-more zero k rs lt blocks b = absurd (omega arith)
  block_loop-more (suc fuel) k {cs = cs} (ended h) lt blocks b =
      block_loop-ended read service name fuel k blocks b h
      ∙ sym (block_loop-ended read service name 0 k blocks b h)
  block_loop-more (suc fuel) k {r = r} (gave {v = v} {c = c} {cs = cs} h rs) lt blocks b =
      block_loop-gave read service name fuel k blocks b h
      ∙ staged-same (block_loop read service name fuel (next_raw_id k))
          (block_loop read service name (suc (length cs)) (next_raw_id k)) (make_block_id k) blocks
          v (service.put_block name (make_block_id k) c b)
          (block_loop-more fuel (next_raw_id k) rs (omega arith))
      ∙ sym (block_loop-gave read service name (suc (length cs)) k blocks b h)

  pub upload_multi_part-more :
      (fuel : ℕ) (metadata : Dict Str) {r r' : R} {cs : List Str} {e : Err} (b : B)
      → Reads read r cs e r'
      → length cs < fuel
      → upload_multi_part read service name fuel metadata (r, b)
        ≡ upload_multi_part read service name (suc (length cs)) metadata (r, b)
  unfolding upload_multi_part
  upload_multi_part-more fuel metadata b rs lt =
      ap (finish read service name metadata) (block_loop-more fuel 0 rs lt [] b)
