-- ===== src/Drivers.antt =====
-- The stores that NewStore gives out: the drivers that the packages localfs, google, awss3, azure and
-- sftp register when they are imported, over what they call of other packages.
pub mod Made
use cloudstorage.Base.{
  ℕ, zero, suc, ◌+◌, ◌-◌, ◌*◌, ◌/◌, ◌%◌, ◌^◌, ◌≤◌, ◌<◌, ◌≡◌, refl, sym, ap, ◌∙◌, ◌≢◌, ◌↔◌, ◌⊎◌, inl,
  inr, Bool, true, false, not, ◌&&◌, ◌||◌, Option, none, some, List, [], ◌∷◌, ◌++◌, map, arith,
  Bool-cases, Option-cases, present, Str, String, lit, str_eq, str_eq_iff, str_eq_refl, ltb, leb,
  ◌==◌, ==_iff, if◌then◌else◌, length, take, drop, keep, All, get_elem?, length-append, length-drop,
  drop-nil, Err, object_not_found, object_exists, iterator_done, canceled, deadline_exceeded,
  not_exist, exist, file_closed, bad_handle, eof, io, message, Outcome, ok, fail, Act, return,
  throw, attempt, ◌>>=◌, ◌>>◌, proceed, proceed-eq-ok, Outcome-cases, deferring, quietly,
  describing, described, proceed-ok, settle, on_first, on_second, mapped, described-eq-ok,
}
use cloudstorage.Base.Dict.{Dict}
use cloudstorage.Config.{JsonHelper, Config}
use cloudstorage.Registry.{StoreProvider, reading, register}
use cloudstorage.Os.{Os}
use cloudstorage.LocalFs.Store as LocalFs
use cloudstorage.LocalFs.Store.{LocalStore}
use cloudstorage.Google.Store.{GcsFs}
use cloudstorage.Google.Connecting as Google
use cloudstorage.Google.Connecting.{Oauth}
use cloudstorage.S3.Store as S3Store
use cloudstorage.S3.Connecting as S3
use cloudstorage.Azure.Store as AzureStore
use cloudstorage.Azure.Connecting as Azure
use cloudstorage.Sftp.Client.{Client}
use cloudstorage.Sftp.Connecting as Sftp
use cloudstorage.Sftp.Connecting.{Ssh}

-- The packages that have a driver
pub data Driver : Type 0 where
  localfs google awss3 azure sftp : Driver

-- StoreType of a package
unfoldable pub store_type : Driver → Str
store_type localfs = LocalFs.store_type
store_type google = Google.store_type
store_type awss3 = S3.store_type
store_type azure = Azure.store_type
store_type sftp = Sftp.store_type

-- A store, by the package that it is of, with its client beside it
pub data Store (Gcs Cl Sess Basic Blobs Ftp : Type 0) : Type 0 where
  local_store : LocalStore → Store Gcs Cl Sess Basic Blobs Ftp
  gcs_store : Gcs → GcsFs → Store Gcs Cl Sess Basic Blobs Ftp
  s3_store : Cl → Sess → S3Store.Fs → Store Gcs Cl Sess Basic Blobs Ftp
  azure_store : Basic → Blobs → AzureStore.Fs → Store Gcs Cl Sess Basic Blobs Ftp
  sftp_store : Client → Ftp → Store Gcs Cl Sess Basic Blobs Ftp

-- Type of a store
unfoldable pub type_of :
    {Gcs Cl Sess Basic Blobs Ftp : Type 0} → Store Gcs Cl Sess Basic Blobs Ftp → Str
type_of (local_store l) = LocalFs.store_type
type_of (gcs_store gcs g) = Google.store_type
type_of (s3_store client sess f) = S3.store_type
type_of (azure_store client blobs f) = Azure.store_type
type_of (sftp_store m ftp) = Sftp.store_type

module _ {Jwt Http Gcs Cl Sess Basic Blobs Key Conn Ftp N : Type 0} (json : JsonHelper)
    (oauth : Oauth Jwt Http Gcs N) (aws : S3.Sdk Sess Cl) (az : Azure.Sdk Basic Blobs)
    (ssh : Ssh Key Conn Ftp N) (uid : Str) where
  abbrev pub Made : Type 0
  Made = Store Gcs Cl Sess Basic Blobs Ftp

  abbrev pub of_google : Gcs × GcsFs → Made
  of_google (gcs, g) = gcs_store gcs g

  abbrev pub of_s3 : Cl × Sess × S3Store.Fs → Made
  of_s3 (client, sess, f) = s3_store client sess f

  abbrev pub of_azure : Basic × Blobs × AzureStore.Fs → Made
  of_azure (client, blobs, f) = azure_store client blobs f

  abbrev pub of_sftp : Client × Ftp → Made
  of_sftp (m, ftp) = sftp_store m ftp

  -- What a driver makes of a configuration, on the file system and the network
  unfoldable pub provide : Driver → Config → Act (Os × N) Made
  provide localfs conf = mapped local_store (on_first (LocalFs.provide uid conf))
  provide google conf = mapped of_google (Google.provide oauth uid conf)
  provide awss3 conf = mapped of_s3 (on_first (S3.provide json aws uid conf))
  provide azure conf = mapped of_azure (on_first (Azure.provide json az uid conf))
  provide sftp conf = mapped of_sftp (on_second (Sftp.new_client_from_config ssh json uid conf))

  abbrev pub Providers : Type 0
  Providers = Dict (StoreProvider (Os × N) Made)

  -- The init functions of the packages that are imported, in the order in which they run
  unfoldable pub init : List Driver → Providers → Outcome Providers
  init [] providers = ok providers
  init (d ∷ drivers) providers = elim (register (store_type d) (reading (provide d)) providers) [
    | fail e ↦ fail e
    | ok more ↦ init drivers more
  ]
