-- ===== src/Azure/Upload/Failure.antt =====
-- An upload that fails before its blocks are committed changes no blob, and one that the service
-- accepts succeeds.
use cloudstorage.Base.{
  ℕ, zero, suc, ◌^◌, ◌<◌, ◌≡◌, refl, ap, ◌∙◌, Option, none, some, List, [], ◌∷◌, ◌++◌, Str, length,
  Err, eof, Outcome, ok, fail,
}
use mathlib.Core.List.{flatten}
use cloudstorage.Base.{proceed-ok}
use cloudstorage.Base.Dict.{Dict}
use cloudstorage.Azure.BlockId.{make_block_id}
use cloudstorage.Azure.Upload.{
  BlobService, Reader, initial_chunk_size, next_raw_id, staged, was_read, block_loop, commit,
  committed, finish, upload_multi_part,
}
use cloudstorage.Azure.Upload.Service.{IsBlobService}
use cloudstorage.Azure.Upload.Content.{
  Reads, ended, gave, block_loop-gave, block_loop-ended, upload_multi_part-content,
}

-- The service takes every call.
pub record Accepts {B : Type 0} (service : BlobService B) : Type 0 where
  pub put : (name id chunk : Str) (b : B) → (service.put_block name id chunk b).0 ≡ ok tt
  pub list : (name : Str) (ids : List Str) (b : B) → (service.put_block_list name ids b).0 ≡ ok tt
  pub properties : (name : Str) (b : B) → (service.get_properties name b).0 ≡ ok tt
  pub metadata : (name : Str) (md : Dict Str) (b : B) → (service.set_metadata name md b).0 ≡ ok tt

-- An error of Read that is not the end of the text.
abbrev pub IsBroken : Err → Type 0
IsBroken eof = ⊥
IsBroken e = Unit

module _ {R B : Type 0} (read : Reader R) (service : BlobService B) (L : IsBlobService service)
    (name : Str) where
  abbrev Keeps : Str → B → Outcome (List Str) × (R × B) → Type 0
  Keeps m b x = L.content x.1.1 m ≡ L.content b m

  staged-content :
      (again : List Str → R → B → Outcome (List Str) × (R × B)) (id : Str) (blocks : List Str)
      (r : R) (m : Str) (x : Outcome (Unit {0}) × B)
      → ((bs : List Str) (v : R) (b : B) → Keeps m b (again bs v b))
      → Keeps m x.1 (staged read service name again id blocks r x)
  unfolding staged
  staged-content again id blocks r m (ok _, b) h = h (blocks ++ id ∷ []) r b
  staged-content again id blocks r m (fail e, b) h = refl

  was_read-content :
      (again : List Str → R → B → Outcome (List Str) × (R × B)) (k : ℕ) (blocks : List Str) (b : B)
      (m : Str) (x : (Str × Option Err) × R)
      → ((bs : List Str) (v : R) (b : B) → Keeps m b (again bs v b))
      → Keeps m b (was_read read service name again k blocks b x)
  unfolding was_read
  was_read-content again k blocks b m ((c, none), r) h =
      staged-content again (make_block_id k) blocks r m
        (service.put_block name (make_block_id k) c b) h
      ∙ L.content-put_block name (make_block_id k) c b m
  was_read-content again k blocks b m ((c, some eof), r) h = refl
  was_read-content again k blocks b m ((c, some _), r) h = refl

  loop-content :
      (fuel k : ℕ) (blocks : List Str) (r : R) (b : B) (m : Str)
      → Keeps m b (block_loop read service name fuel k blocks r b)
  unfolding block_loop
  loop-content zero k blocks r b m = refl
  loop-content (suc fuel) k blocks r b m =
      was_read-content (block_loop read service name fuel (next_raw_id k)) k blocks b m
        (read initial_chunk_size r) (λ bs v b'. loop-content fuel (next_raw_id k) bs v b' m)

  was_read-broken :
      (again : List Str → R → B → Outcome (List Str) × (R × B)) (k : ℕ) (blocks : List Str) (b : B)
      (lost : Str) (e : Err) (r : R)
      → IsBroken e
      → was_read read service name again k blocks b ((lost, some e), r) ≡ (fail e, (r, b))
  unfolding was_read
  was_read-broken again k blocks b lost eof r h = absurd h
  was_read-broken again k blocks b lost _ r h = refl

  staged-fails :
      (again : List Str → R → B → Outcome (List Str) × (R × B)) (id : Str) (blocks : List Str)
      (r : R) (x : Outcome (Unit {0}) × B)
      → ((b : B) → (e : Err) × ((again (blocks ++ id ∷ []) r b).0 ≡ fail e))
      → (e : Err) × ((staged read service name again id blocks r x).0 ≡ fail e)
  unfolding staged
  staged-fails again id blocks r (ok _, b) h = h b
  staged-fails again id blocks r (fail e, b) h = (e, refl)

  loop_fails :
      (k : ℕ) (blocks cs : List Str) {r r' : R} (b : B) {e : Err}
      → Reads read r cs e r'
      → IsBroken e
      → (x : Err) × ((block_loop read service name (suc (length cs)) k blocks r b).0 ≡ fail x)
  loop_fails k blocks _ {r' = r'} b (ended {lost = lost} {e = e} h) broken = (
    e,
    rw (block_loop-ended read service name 0 k blocks b h) (
        ap (λ (x : Outcome (List Str) × (R × B)). x.0)
          (was_read-broken (block_loop read service name 0 (next_raw_id k)) k blocks b lost e r'
            broken)),
  )
  loop_fails k blocks _ b (gave {v = v} {c = c} {cs = cs} h rs) broken =
      rw (block_loop-gave read service name (suc (length cs)) k blocks b h) (
        staged-fails (block_loop read service name (suc (length cs)) (next_raw_id k))
          (make_block_id k) blocks v (service.put_block name (make_block_id k) c b)
          (λ b'. loop_fails (next_raw_id k) (blocks ++ make_block_id k ∷ []) cs b' rs broken))

  finish-fail :
      (metadata : Dict Str) (x : Outcome (List Str) × (R × B)) (e : Err)
      → x.0 ≡ fail e
      → finish read service name metadata x ≡ (fail e, x.1)
  unfolding finish
  finish-fail metadata (ok ids, s) e h = cc
  finish-fail metadata (fail d, s) e h = ap (λ (d : Outcome (Unit {0})). (d, s)) (cc)

  -- If the reader breaks off with an error, the upload fails and every blob keeps its content.
  pub upload_multi_part-broken :
      (metadata : Dict Str) {r r' : R} (cs : List Str) (b : B) (e : Err)
      → Reads read r cs e r'
      → IsBroken e
      → (x : Err) × (s : R × B) × (upload_multi_part read service name
            (suc (length cs))
            metadata
            (r, b)
          ≡ (fail x, s))
        × ((m : Str) → L.content s.1 m ≡ L.content b m)
  unfolding upload_multi_part
  upload_multi_part-broken metadata {r} cs b e rs broken =
      let run = block_loop read service name (suc (length cs)) 0 [] r b in
      let (x, failed) = loop_fails 0 [] cs b rs broken in
      (x, run.1, finish-fail metadata run x failed, loop-content (suc (length cs)) 0 [] r b)

  staged-accepted :
      (again : List Str → R → B → Outcome (List Str) × (R × B)) (id : Str) (blocks : List Str)
      (r : R) (x : Outcome (Unit {0}) × B)
      → x.0 ≡ ok tt
      → staged read service name again id blocks r x ≡ again (blocks ++ id ∷ []) r x.1
  unfolding staged
  staged-accepted again id blocks r (ok _, b) h = refl
  staged-accepted again id blocks r (fail e, b) h = cc

  loop-Accepts :
      Accepts service
      → (k : ℕ) (blocks cs : List Str) {r r' : R} (b : B) → Reads read r cs eof r'
      → (ids : List Str) × ((block_loop read service name (suc (length cs)) k blocks r b).0
          ≡ ok ids)
  unfolding was_read
  loop-Accepts A k blocks _ b (ended h) =
      (blocks, rw (block_loop-ended read service name 0 k blocks b h) refl)
  loop-Accepts A k blocks _ b (gave {v = v} {c = c} {cs = cs} h rs) =
      let x = service.put_block name (make_block_id k) c b in
      rw
        (
          block_loop-gave read service name (suc (length cs)) k blocks b h,
          staged-accepted (block_loop read service name (suc (length cs)) (next_raw_id k))
              (make_block_id k) blocks v x (A.put name (make_block_id k) c b),
        )
        (loop-Accepts A (next_raw_id k) (blocks ++ make_block_id k ∷ []) cs x.1 rs)

  commit-accepted :
      Accepts service
      → (metadata : Dict Str) (ids : List Str) (b : B)
      → (commit read service name metadata ids b).0 ≡ ok tt
  unfolding commit
  commit-accepted A metadata ids b =
      let x = service.put_block_list name ids b in
      let y = service.get_properties name x.1 in
      rw (proceed-ok _ x tt (A.list name ids b), proceed-ok _ y tt (A.properties name x.1))
        (A.metadata name metadata y.1)

  finish-accepted :
      Accepts service
      → (metadata : Dict Str) (x : Outcome (List Str) × (R × B)) (ids : List Str) → x.0 ≡ ok ids
      → (finish read service name metadata x).0 ≡ ok tt
  unfolding finish committed
  finish-accepted A metadata (ok is, (r, b)) ids h = commit-accepted A metadata is b
  finish-accepted A metadata (fail e, s) ids h = cc

  -- If the service takes every call and the reader comes to the end of its text, the upload succeeds
  -- and the blob holds what the reader gave without an error, where that is fewer than 2^64 chunks:
  -- bytes that come with io.EOF are dropped.
  pub upload_multi_part-accepted :
      Accepts service
      → (metadata : Dict Str) {r r' : R} (cs : List Str) (b : B) → Reads read r cs eof r'
      → length cs < 2 ^ 64
      → (s : R × B) × (upload_multi_part read service name (suc (length cs)) metadata (r, b)
          ≡ (ok tt, s))
        × (L.content s.1 name ≡ some (flatten cs))
  unfolding upload_multi_part
  upload_multi_part-accepted A metadata {r} cs b rs lt =
      let run = upload_multi_part read service name (suc (length cs)) metadata (r, b) in
      let (ids, looped) = loop-Accepts A 0 [] cs b rs in
      let ends = finish-accepted A metadata _ ids looped in
      let whole : run ≡ (ok tt, run.1) = λ i. (ends i, run.1) in
      (run.1, whole, upload_multi_part-content read service L name metadata cs b rs lt whole)
