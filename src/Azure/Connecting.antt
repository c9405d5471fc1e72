-- ===== src/Azure/Connecting.antt =====
-- NewClient of azure/store.go, and the provider that the package registers. What az.NewBasicClient and
-- GetBlobService make of an account and its key is a parameter.
pub mod Credentials
use cloudstorage.Base.{
  ℕ, zero, suc, ◌+◌, ◌-◌, ◌*◌, ◌/◌, ◌%◌, ◌^◌, ◌≤◌, ◌<◌, ◌≡◌, refl, sym, ap, ◌∙◌, ◌≢◌, ◌↔◌, ◌⊎◌, inl,
  inr, Bool, true, false, not, ◌&&◌, ◌||◌, Option, none, some, List, [], ◌∷◌, ◌++◌, map, arith,
  Bool-cases, Option-cases, present, Str, String, lit, str_eq, str_eq_iff, str_eq_refl, ltb, leb,
  ◌==◌, ==_iff, if◌then◌else◌, length, take, drop, keep, All, get_elem?, length-append, length-drop,
  drop-nil, Err, object_not_found, object_exists, iterator_done, canceled, deadline_exceeded,
  not_exist, exist, file_closed, bad_handle, eof, io, message, Outcome, ok, fail, Act, return,
  throw, attempt, ◌>>=◌, ◌>>◌, proceed, proceed-eq-ok, Outcome-cases, deferring, quietly,
  describing, described, proceed-ok, settle, on_first, on_second, described-eq-ok,
}
use cloudstorage.Config.{JsonHelper, Config}
use cloudstorage.Os.{Os}
use cloudstorage.Azure.Store.{Fs, new_store}

pub record Sdk (Basic Blobs : Type 0) : Type 0 where
  pub new_basic_client : Str → Str → Outcome Basic
  pub get_blob_service : Basic → Blobs

abbrev pub store_type : Str
store_type = lit "azure"

abbrev pub auth_key : Str
auth_key = lit "azure_key"

abbrev conf_key_auth_key : Str
conf_key_auth_key = lit "azure_key"

module _ (json : JsonHelper) {Basic Blobs : Type 0} (sdk : Sdk Basic Blobs) where
  abbrev pub access_key : Config → Str
  access_key conf = json.string conf.settings conf_key_auth_key

  with_service : Outcome Basic → Outcome (Basic × Blobs)
  with_service (fail e) = fail e
  with_service (ok basic) = ok (basic, sdk.get_blob_service basic)

  -- NewClient; the project is the name of the account.
  unfoldable pub new_client : Config → Outcome (Basic × Blobs)
  unfolding with_service
  new_client conf =
      if str_eq conf.auth_method auth_key
      then (if str_eq (access_key conf) []
          then fail (message "no settings.azure_key")
          else with_service (sdk.new_basic_client conf.project (access_key conf)))
      else fail (message "No auth provided")

  store_on : Str → Config → Basic × Blobs → Act Os (Basic × Blobs × Fs)
  store_on uid conf (client, blobs) = do f ← new_store uid conf; return (client, blobs, f)

  -- What init registers, with the id that uuid gives
  unfoldable pub provide : Str → Config → Act Os (Basic × Blobs × Fs)
  unfolding store_on
  provide uid conf = settle (new_client conf) >>= store_on uid conf
