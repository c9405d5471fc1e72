-- ===== src/S3/Client.antt =====
-- What awss3/store.go calls of the package github.com/aws/aws-sdk-go, on a state of the service.
use cloudstorage.Base.{ℕ, Bool, Option, List, Str, Err, Act}

-- s3.HeadObjectOutput; a time or a value that is nil is `none`.
pub record Head : Type 0 where
  pub last_modified : Option ℕ
  pub metadata : List (Str × Option Str)

-- s3.Object
pub record Content : Type 0 where
  pub key : Str
  pub last_modified : Option ℕ

-- s3.ListObjectsInput
pub record ListInput : Type 0 where
  pub bucket : Str
  pub marker : Option Str
  pub max_keys : ℕ
  pub prefix : Str
  pub delimiter : Option Str

-- s3.ListObjectsOutput
pub record ListOutput : Type 0 where
  pub contents : List Content
  pub common_prefixes : List Str
  pub is_truncated : Option Bool

-- The operations take a bucket and a key. The error whose text says "Not Found" or "NoSuchKey" is
-- `not_exist`. A body is a number, and is read chunk by chunk. The uploader gets what its reader gives,
-- and the error that stops the reader, if there is one.
pub record Client (C : Type 0) : Type 0 where
  pub head_object : Str → Str → Act C Head
  pub get_object : Str → Str → Act C ℕ
  pub read_body : ℕ → Act C Str
  pub list_objects : ListInput → Act C ListOutput
  pub upload : Str → Str → Str × Option Err → Act C (Unit {0})
  pub delete_object : Str → Str → Act C (Unit {0})
