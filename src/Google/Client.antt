-- ===== src/Google/Client.antt =====
-- What google/store.go calls of the package cloud.google.com/go/storage, on a state of the service.
use cloudstorage.Base.{ℕ, Bool, Option, Str, Err, Act}
use cloudstorage.Base.Dict.{Dict}

-- storage.ObjectAttrs, as far as the store reads it: `prefix` is set for a folder.
pub record Attrs : Type 0 where
  pub name : Str
  pub prefix : Str
  pub updated : ℕ
  pub metadata : Option (Dict Str)

-- The operations take a bucket and the name of an object. The error whose text says that the object
-- doesn't exist is `not_exist`. A reader is what it gives and the error that it ends with, if that
-- is not the end; a writer and an iterator are numbers.
pub record Client (C : Type 0) : Type 0 where
  pub attrs : Str → Str → Act C Attrs
  pub open_body : Str → Str → Act C (Str × Option Err)
  pub delete_object : Str → Str → Act C (Unit {0})
  pub copy_object : Str → Str → Str → Str → Act C (Unit {0})
  -- The metadata and the content type are set if there are any; the flag is the condition DoesNotExist.
  pub start_writer : Str → Str → Option (Dict Str × Str) → Bool → C → ℕ × C
  pub send : ℕ → Str → Act C (Unit {0})
  pub close_writer : ℕ → Act C (Unit {0})
  pub close_with_error : ℕ → Err → Act C (Unit {0})
  -- The delimiter and the prefix of the query
  pub list_objects : Str → Str → Str → C → ℕ × C
  pub next_attrs : ℕ → Act C Attrs
