-- ===== src/Azure/Upload/Content.antt =====
-- What a blob holds after an upload.
use cloudstorage.Base.{
  ℕ, suc, ◌+◌, ◌^◌, ◌<◌, ◌≡◌, refl, sym, ap, ◌∙◌, inl, inr, false, none, some, List, [], ◌∷◌, ◌++◌,
  map, arith, Bool-cases, Str, str_eq, str_eq_iff, str_eq_refl, length, All, Err, eof, Outcome, ok,
  fail,
}
use mathlib.Core.List.{flatten, map-append, append-nil, append_assoc}
use mathlib.Core.Path.{subst}
use native.Mathlib.Nat.{zero-add}
use cloudstorage.Base.{proceed-eq-ok}
use cloudstorage.Base.Dict.{Dict}
use cloudstorage.Azure.BlockId.{make_block_id}
use cloudstorage.Azure.BlockId.Injective.{make_block_id-inj}
use cloudstorage.Azure.Upload.{
  BlobService, Reader, initial_chunk_size, next_raw_id, staged, was_read, block_loop, commit,
  committed, finish, upload_multi_part,
}
use cloudstorage.Azure.Upload.Service.{joined, IsBlobService}

ids_differ : (j k : ℕ) → j < k → k < 2 ^ 64 → str_eq (make_block_id k) (make_block_id j) ≡ false
ids_differ j k lt h = elim (Bool-cases (str_eq (make_block_id k) (make_block_id j))) [
  | inl same ↦
      let e : k ≡ j =
        make_block_id-inj k j h (omega arith)
          ((str_eq_iff (make_block_id k) (make_block_id j)).0 same) in
      absurd (omega arith)
  | inr differ ↦ differ
]

next_raw_id-lt : (k : ℕ) → k + 1 < 2 ^ 64 → next_raw_id k ≡ k + 1
next_raw_id-lt k h = omega arith

module _ {R : Type 0} (read : Reader R) where
  -- The reader gives some chunks, and then an error, maybe with bytes that are lost.
  pub data Reads : R → List Str → Err → R → Type 0 where
    ended :
        {r r' : R} {lost : Str} {e : Err}
        → read initial_chunk_size r ≡ ((lost, some e), r')
        → Reads r [] e r'
    gave :
        {r v r' : R} {c : Str} {cs : List Str} {e : Err}
        → read initial_chunk_size r ≡ ((c, none), v)
        → Reads v cs e r'
        → Reads r (c ∷ cs) e r'

  module _ {B : Type 0} (service : BlobService B) (name : Str) (fuel k : ℕ) (blocks : List Str)
      {r r' : R} (b : B) where
    -- A pass whose read gives a chunk
    pub block_loop-gave :
        {c : Str}
        → read initial_chunk_size r ≡ ((c, none), r')
        → block_loop read service name (suc fuel) k blocks r b
          ≡ staged read service name
              (block_loop read service name fuel (next_raw_id k))
              (make_block_id k)
              blocks
              r'
              (service.put_block name (make_block_id k) c b)
    unfolding block_loop was_read
    block_loop-gave =
        ap (
          was_read read service name (block_loop read service name fuel (next_raw_id k)) k blocks b)

    -- The last pass
    pub block_loop-ended :
        {lost : Str} {e : Err}
        → read initial_chunk_size r ≡ ((lost, some e), r')
        → block_loop read service name (suc fuel) k blocks r b
          ≡ was_read read service name
              (block_loop read service name fuel (next_raw_id k))
              k
              blocks
              b
              ((lost, some e), r')
    unfolding block_loop
    block_loop-ended =
        ap (
          was_read read service name (block_loop read service name fuel (next_raw_id k)) k blocks b)

  module _ {B : Type 0} (service : BlobService B) (L : IsBlobService service) (name : Str) where
    -- The blocks of the numbers hold the chunks.
    abbrev Holds : B → List ℕ → List Str → Type 0
    Holds b [] [] = Unit
    Holds b (j ∷ js) (d ∷ ds) = (L.staged b name (make_block_id j) ≡ some d) × Holds b js ds
    Holds b _ _ = ⊥

    Holds-put :
        (k : ℕ) (c : Str) (b b' : B) (js : List ℕ) (ds : List Str)
        → service.put_block name (make_block_id k) c b ≡ (ok tt, b')
        → k < 2 ^ 64
        → All (λ j. j < k) js
        → Holds b js ds
        → Holds b' (js ++ k ∷ []) (ds ++ c ∷ [])
    Holds-put k c b b' [] [] p h a m =
        (L.staged-put_block name (make_block_id k) c b b' p (make_block_id k) ∙ rw str_eq_refl, tt)
    Holds-put k c b b' [] (_ ∷ _) p h a m = absurd m
    Holds-put k c b b' (j ∷ js) [] p h a m = absurd m
    Holds-put k c b b' (j ∷ js) (d ∷ ds) p h a m = (
      L.staged-put_block name (make_block_id k) c b b' p (make_block_id j)
          ∙ rw (ids_differ j k a.0 h) m.0,
      Holds-put k c b b' js ds p h a.1 m.1,
    )

    staged-ok :
        (again : List Str → R → B → Outcome (List Str) × (R × B)) (id : Str) (blocks : List Str)
        (r : R) (x : Outcome (Unit {0}) × B) {bs : List Str} {s : R × B}
        → staged read service name again id blocks r x ≡ (ok bs, s)
        → (b : B) × (x ≡ (ok tt, b)) × (again (blocks ++ id ∷ []) r b ≡ (ok bs, s))
    unfolding staged
    staged-ok again id blocks r (ok tt, b) h = (b, refl, h)
    staged-ok again id blocks r (fail e, b) h = cc

    All-lt_suc : (k : ℕ) (js : List ℕ) → All (λ j. j < k) js → All (λ j. j < k + 1) (js ++ k ∷ [])
    All-lt_suc k [] a = (omega arith, tt)
    All-lt_suc k (j ∷ js) a = (omega arith, All-lt_suc k js a.1)

    loop-Holds :
        (k : ℕ) (js : List ℕ) (ds cs : List Str) {r r' : R} (b : B) {bs : List Str} {s : R × B}
        → Reads r cs eof r'
        → k + length cs < 2 ^ 64
        → All (λ j. j < k) js
        → Holds b js ds
        → block_loop read service name (suc (length cs)) k (map make_block_id js) r b ≡ (ok bs, s)
        → (js' : List ℕ) × (bs ≡ map make_block_id js') × Holds s.1 js' (ds ++ cs)
    unfolding was_read
    loop-Holds k js ds _ {r' = r'} b {bs} {s} (ended h) lt a m e =
        let ended_with : (ok (map make_block_id js), (r', b)) ≡ (ok bs, s) =
          sym (block_loop-ended service name 0 k (map make_block_id js) b h) ∙ e in
        let s_is : s ≡ (r', b) = sym (ap (λ (x : Outcome (List Str) × (R × B)). x.1) ended_with) in
        let ids : ok (map make_block_id js) ≡ ok bs =
          ap (λ (x : Outcome (List Str) × (R × B)). x.0) ended_with in
        (js, cc, subst (λ (t : R × B). Holds t.1 js (ds ++ [])) (sym s_is) (rw append-nil m))
    loop-Holds k js ds _ b {bs} {s} (gave {v = v} {c = c} {cs = cs} h rs) lt a m e =
        let (b', put, rest) =
          staged-ok (block_loop read service name (suc (length cs)) (next_raw_id k))
            (make_block_id k) (map make_block_id js) v
            (service.put_block name (make_block_id k) c b)
            (sym (block_loop-gave service name (suc (length cs)) k (map make_block_id js) b h)
              ∙ e) in
        let rest' : block_loop read service name (suc (length cs)) (k + 1)
              (map make_block_id (js ++ k ∷ [])) v b'
            ≡ (ok bs, s) =
          rw map-append (rw (next_raw_id-lt k (omega arith)) at rest) in
        let (js', ids, held) =
          loop-Holds (k + 1) (js ++ k ∷ []) (ds ++ c ∷ []) cs b' rs (omega arith)
            (All-lt_suc k js a) (Holds-put k c b b' js ds put (omega arith) a m) rest' in
        (js', ids, rw append_assoc at held)

    joined-Holds :
        (b : B) (js : List ℕ) (ds : List Str)
        → Holds b js ds
        → joined (map (L.staged b name) (map make_block_id js)) ≡ some (flatten ds)
    unfolding joined flatten
    joined-Holds b [] [] m = refl
    joined-Holds b [] (_ ∷ _) m = absurd m
    joined-Holds b (_ ∷ _) [] m = absurd m
    joined-Holds b (j ∷ js) (d ∷ ds) m = rw (m.0, joined, joined-Holds b js ds m.1)

    commit-content :
        (metadata : Dict Str) (ids : List Str) (b b' : B)
        → commit read service name metadata ids b ≡ (ok tt, b')
        → L.content b' name ≡ joined (map (L.staged b name) ids)
    unfolding commit
    commit-content metadata ids b b' h =
        let (_, b1, put, h1) = proceed-eq-ok _ (service.put_block_list name ids b) h in
        let (_, b2, got, h2) = proceed-eq-ok _ (service.get_properties name b1) h1 in
        sym (ap (λ (x : Outcome (Unit {0}) × B). L.content x.1 name) h2)
        ∙ L.content-set_metadata name metadata b2 name
        ∙ sym (ap (λ (x : Outcome (Unit {0}) × B). L.content x.1 name) got)
        ∙ L.content-get_properties name b1 name
        ∙ L.content-put_block_list name ids b b1 put

    finish-ok :
        (metadata : Dict Str) (x : Outcome (List Str) × (R × B)) {s : R × B}
        → finish read service name metadata x ≡ (ok tt, s)
        → (ids : List Str) × (t : R × B) × (x ≡ (ok ids, t))
          × (commit read service name metadata ids t.1 ≡ (ok tt, s.1))
    unfolding finish committed
    finish-ok metadata (ok ids, (r, b)) {s} h = (ids, (r, b), refl, λ i. ((h i).0, (h i).1.1))
    finish-ok metadata (fail e, t) h = cc

    -- After an upload that succeeds, the blob holds what the reader gave without an error up to the end
    -- of its text, chunk by chunk, where that is fewer than 2^64 chunks: bytes that come with io.EOF
    -- are dropped. The fuel is one pass more than chunks.
    pub upload_multi_part-content :
        (metadata : Dict Str) {r r' : R} (cs : List Str) (b : B) {s : R × B}
        → Reads r cs eof r'
        → length cs < 2 ^ 64
        → upload_multi_part read service name (suc (length cs)) metadata (r, b) ≡ (ok tt, s)
        → L.content s.1 name ≡ some (flatten cs)
    unfolding upload_multi_part
    upload_multi_part-content metadata {r} cs b {s} rs lt h =
        let (ids, t, looped, done) =
          finish-ok metadata (block_loop read service name (suc (length cs)) 0 [] r b) h in
        let (js, named, held) = loop-Holds 0 [] [] cs b rs (rw zero-add lt) tt tt looped in
        commit-content metadata ids t.1 s.1 done ∙ rw named (joined-Holds t.1 js cs held)
