-- ===== src/Google/ApiStore.antt =====
-- APIStore of google/apistore.go, over the calls of the package storage/v1 on a state of the service.
use cloudstorage.Base.{
  Bool, false, not, [], Str, lit, str_eq, Outcome, ok, fail, Act, return, ◌>>=◌, settle,
}
use cloudstorage.Config.{Config}
use cloudstorage.Os.{Os}
use cloudstorage.Google.Connecting.{Oauth, new_google_client}

pub record AccessControl : Type 0 where
  pub entity : Str
  pub role : Str

-- Buckets.Get gives the id of a bucket.
pub record Api (Http Service N : Type 0) : Type 0 where
  pub new_service : Http → Outcome Service
  pub get_bucket : Service → Str → Act N Str
  pub insert_bucket : Service → Str → Str → Act N (Unit {0})
  pub insert_access : Service → Str → Str → AccessControl → Act N (Unit {0})

pub record ApiStore (Service : Type 0) : Type 0 where
  pub service : Service
  pub project : Str

module _ {Http Service N : Type 0} (api : Api Http Service N) where
  -- NewAPIStore
  unfoldable pub new_api_store :
      {Jwt Gcs : Type 0} → Oauth Jwt Http Gcs N → Config → Act (Os × N) (ApiStore Service)
  new_api_store oauth conf = do
    http ← new_google_client oauth conf
    service ← settle (api.new_service http)
    return (record { service = service; project = conf.project })

  has_id : Outcome Str → Bool
  has_id (fail e) = false
  has_id (ok id) = not (str_eq id [])

  module _ (c : ApiStore Service) where
    -- BucketExists: an error counts as not being there.
    unfoldable pub bucket_exists : Str → N → Bool × N
    unfolding has_id
    bucket_exists name n = let (r, n') = api.get_bucket c.service name n in (has_id r, n')

    -- CreateBucket
    unfoldable pub create_bucket : Str → Act N (Unit {0})
    create_bucket name = api.insert_bucket c.service c.project name

    -- AddOwner
    unfoldable pub add_owner : Str → Str → Str → Act N (Unit {0})
    add_owner bucket object entity =
        api.insert_access c.service bucket object (record { entity = entity; role = lit "OWNER" })

    -- AddReader
    unfoldable pub add_reader : Str → Str → Str → Act N (Unit {0})
    add_reader bucket object entity =
        api.insert_access c.service bucket object (record { entity = entity; role = lit "READER" })
