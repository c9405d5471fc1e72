-- ===== src/Azure/Upload.antt =====
-- uploadMultiPart of azure/store.go. The reader and the blob service are not this repository's: a
-- state and operations for each, over a name.
pub mod Service
pub mod Content
pub mod Failure
pub mod Fuel
pub mod Writer
use cloudstorage.Base.{
  ℕ, zero, suc, ◌+◌, ◌-◌, ◌*◌, ◌/◌, ◌%◌, ◌^◌, ◌≤◌, ◌<◌, ◌≡◌, refl, sym, ap, ◌∙◌, ◌≢◌, ◌↔◌, ◌⊎◌, inl,
  inr, Bool, true, false, not, ◌&&◌, ◌||◌, Option, none, some, List, [], ◌∷◌, ◌++◌, map, arith,
  Bool-cases, Option-cases, present, Str, String, lit, str_eq, str_eq_iff, str_eq_refl, ltb, leb,
  ◌==◌, ==_iff, if◌then◌else◌, length, take, drop, keep, All, get_elem?, length-append, length-drop,
  Err, object_not_found, object_exists, iterator_done, canceled, deadline_exceeded, not_exist,
  exist, file_closed, bad_handle, eof, message, Outcome, ok, fail, Act, return, throw, attempt,
  ◌>>=◌, ◌>>◌,
}
use cloudstorage.Base.Dict.{Dict}
use cloudstorage.Azure.BlockId.{make_block_id}

abbrev pub initial_chunk_size : ℕ
initial_chunk_size = 4 * 1024 * 1024

-- rawID++ on a uint64
abbrev pub next_raw_id : ℕ → ℕ
next_raw_id id = (id + 1) % 2 ^ 64

-- io.Reader: Read gives bytes, and an error that may come with them.
abbrev pub Reader : Type 0 → Type 0
Reader R = ℕ → R → (Str × Option Err) × R

-- The blob that GetBlobReference names: put a block, commit a list of blocks, load the properties
-- and set the metadata.
pub record BlobService (B : Type 0) : Type 0 where
  pub put_block : Str → Str → Str → Act B (Unit {0})
  pub put_block_list : Str → List Str → Act B (Unit {0})
  pub get_properties : Str → Act B (Unit {0})
  pub set_metadata : Str → Dict Str → Act B (Unit {0})

module _ {R B : Type 0} (read : Reader R) (service : BlobService B) (name : Str) where
  open service use {put_block, put_block_list, get_properties, set_metadata}

  -- The ids of the blocks that were put, or the error that ended the loop.
  abbrev pub Result : Type 0
  Result = Outcome (List Str) × (R × B)

  -- What a pass does behind PutBlock; `again` is the next pass.
  pub staged : (List Str → R → B → Result) → Str → List Str → R → Outcome (Unit {0}) × B → Result
  staged again id blocks r (ok _, b) = again (blocks ++ id ∷ []) r b
  staged again id blocks r (fail e, b) = (fail e, (r, b))

  -- What it does behind Read: the bytes that come with an error are dropped.
  pub was_read : (List Str → R → B → Result) → ℕ → List Str → B → (Str × Option Err) × R → Result
  unfolding staged
  was_read again raw_id blocks b ((chunk, none), r) =
      staged again (make_block_id raw_id) blocks r (put_block name (make_block_id raw_id) chunk b)
  was_read again raw_id blocks b ((chunk, some eof), r) = (ok blocks, (r, b))
  was_read again raw_id blocks b ((chunk, some e), r) = (fail e, (r, b))

  -- `for { … }` on fuel; running out of it is an error of its own.
  pub block_loop : ℕ → ℕ → List Str → R → B → Result
  unfolding was_read
  block_loop zero raw_id blocks r b = (fail (message "out of fuel"), (r, b))
  block_loop (suc fuel) raw_id blocks r b =
      was_read (block_loop fuel (next_raw_id raw_id)) raw_id blocks b (read initial_chunk_size r)

  -- The calls behind the loop.
  commit : Dict Str → List Str → Act B (Unit {0})
  commit metadata blocks = do
    put_block_list name blocks
    get_properties name
    set_metadata name metadata

  committed : R → Outcome (Unit {0}) × B → Outcome (Unit {0}) × (R × B)
  committed r (x, b) = (x, (r, b))

  finish : Dict Str → Result → Outcome (Unit {0}) × (R × B)
  unfolding commit committed
  finish metadata (ok blocks, (r, b)) = committed r (commit metadata blocks b)
  finish metadata (fail e, s) = (fail e, s)

  unfoldable pub upload_multi_part : ℕ → Dict Str → Act (R × B) (Unit {0})
  unfolding block_loop finish
  upload_multi_part fuel metadata (r, b) = finish metadata (block_loop fuel 0 [] r b)
