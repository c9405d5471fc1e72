-- ===== src/Azure/Upload/Service.antt =====
-- The documented behaviour of a block blob: what is staged under a name, and what is committed.
use cloudstorage.Base.{
  ◌≡◌, Option, none, some, List, [], ◌∷◌, ◌++◌, map, Str, str_eq, if◌then◌else◌, ok,
}
use cloudstorage.Base.Dict.{Dict}
use cloudstorage.Azure.Upload.{BlobService}

-- The contents of the blocks, one behind the other, if all are there.
unfoldable pub joined : List (Option Str) → Option Str
joined [] = some []
joined (none ∷ blocks) = none
joined (some chunk ∷ blocks) = elim (joined blocks) [
  | none ↦ none
  | some rest ↦ some (chunk ++ rest)
]

-- A block that is put is staged under its id and changes no blob; a list of ids that is committed
-- makes the blob the concatenation of the staged blocks; the other calls change no content.
pub record IsBlobService {B : Type 0} (service : BlobService B) : Type 0 where
  pub staged : B → Str → Str → Option Str
  pub content : B → Str → Option Str
  pub staged-put_block :
      (name id chunk : Str) (b b' : B)
      → service.put_block name id chunk b ≡ (ok tt, b')
      → (j : Str) → staged b' name j ≡ (if str_eq id j then some chunk else staged b name j)
  pub content-put_block :
      (name id chunk : Str) (b : B) (m : Str)
      → content (service.put_block name id chunk b).1 m ≡ content b m
  pub content-put_block_list :
      (name : Str) (ids : List Str) (b b' : B)
      → service.put_block_list name ids b ≡ (ok tt, b')
      → content b' name ≡ joined (map (staged b name) ids)
  pub content-get_properties :
      (name : Str) (b : B) (m : Str) → content (service.get_properties name b).1 m ≡ content b m
  pub content-set_metadata :
      (name : Str) (metadata : Dict Str) (b : B) (m : Str)
      → content (service.set_metadata name metadata b).1 m ≡ content b m
