-- ===== src/Azure/Client.antt =====
-- What azure/store.go calls of the package github.com/Azure/azure-sdk-for-go/storage, on a state of
-- the service.
use cloudstorage.Base.{ℕ, List, Str, Act}
use cloudstorage.Azure.Upload.{BlobService}

-- ListBlobsParameters
pub record ListInput : Type 0 where
  pub prefix : Str
  pub max_results : ℕ
  pub marker : Str
  pub delimiter : Str

-- BlobListResponse, with the names of its blobs
pub record ListOutput : Type 0 where
  pub blobs : List Str
  pub blob_prefixes : List Str
  pub next_marker : Str

-- The container of a store. The error whose text says "404" is `not_exist`. `last_modified` is what
-- GetProperties loads; a body is a number, and is read chunk by chunk.
pub record Container (C : Type 0) : Type 0 where
  pub last_modified : Str → Act C ℕ
  pub get_blob : Str → Act C ℕ
  pub read_body : ℕ → Act C Str
  pub list_blobs : ListInput → Act C ListOutput
  pub delete_blob : Str → Act C (Unit {0})
  pub blob_service : BlobService C
