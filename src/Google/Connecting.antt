-- ===== src/Google/Connecting.antt =====
-- google/client.go: the http client for a configuration, and the store that google/store.go makes on
-- it. What the packages oauth2 and storage make of keys and scopes is a parameter.
pub mod Credentials
use cloudstorage.Base.{
  ℕ, zero, suc, ◌+◌, ◌-◌, ◌*◌, ◌/◌, ◌%◌, ◌^◌, ◌≤◌, ◌<◌, ◌≡◌, refl, sym, ap, ◌∙◌, ◌≢◌, ◌↔◌, ◌⊎◌, inl,
  inr, Bool, true, false, not, ◌&&◌, ◌||◌, Option, none, some, List, [], ◌∷◌, ◌++◌, map, arith,
  Bool-cases, Option-cases, present, Str, String, lit, str_eq, str_eq_iff, str_eq_refl, ltb, leb,
  ◌==◌, ==_iff, if◌then◌else◌, length, take, drop, keep, All, get_elem?, length-append, length-drop,
  drop-nil, Err, object_not_found, object_exists, iterator_done, canceled, deadline_exceeded,
  not_exist, exist, file_closed, bad_handle, eof, io, message, Outcome, ok, fail, Act, return,
  throw, attempt, ◌>>=◌, ◌>>◌, proceed, proceed-eq-ok, Outcome-cases, deferring, quietly,
  describing, described, proceed-ok, settle, on_first, on_second, described-eq-ok,
}
use cloudstorage.Base.Int.{ℤ}
use cloudstorage.Registry.{max_results}
use cloudstorage.Config.{JwtConf, Config, key_bytes}
use cloudstorage.Os.{Os, read_file}
use cloudstorage.Google.Store.{GcsFs, new_gcs_store}

-- jwt.Config; the address of the tokens is that of the package.
pub record JwtConfig : Type 0 where
  pub email : Str
  pub private_key : List ℕ
  pub scopes : List Str

-- `from_json` is JWTConfigFromJSON, `expand_env` is os.ExpandEnv, `compute_client` the transport on
-- ComputeTokenSource of an account.
pub record Oauth (Jwt Http Gcs N : Type 0) : Type 0 where
  pub default_client : Str → Act N Http
  pub compute_client : Str → Http
  pub from_config : JwtConfig → Jwt
  pub from_json : Str → Str → Outcome Jwt
  pub client : Jwt → Http
  pub expand_env : Str → Str
  pub new_storage : Http → Act N Gcs

abbrev pub store_type : Str
store_type = lit "gcs"

abbrev pub auth_jwt_key_source : Str
auth_jwt_key_source = lit "LyticsJWTkey"

abbrev pub auth_google_jwt_key_source : Str
auth_google_jwt_key_source = lit "GoogleJWTFile"

abbrev pub auth_gce_meta_key_source : Str
auth_gce_meta_key_source = lit "gcemetadata"

abbrev pub auth_gce_default_oauth_token : Str
auth_gce_default_oauth_token = lit "gcedefaulttoken"

module _ {Jwt Http Gcs N : Type 0} (oauth : Oauth Jwt Http Gcs N) where
  with_key : JwtConf → Outcome (List ℕ) → Outcome Http
  with_key j (fail e) = fail e
  with_key j (ok key) = ok (
      oauth.client (
        oauth.from_config
          (record { email = j.client_email; private_key = key; scopes = j.scopes })))

  -- BuildGoogleJWTTransporter
  unfoldable pub build_google_jwt_transporter : JwtConf → Outcome Http
  unfolding with_key
  build_google_jwt_transporter j = with_key j (key_bytes j)

  from_file : Outcome Jwt → Outcome Http
  from_file (fail e) = fail e
  from_file (ok jwt) = ok (oauth.client jwt)

  -- BuildGoogleFileJWTTransporter
  unfoldable pub build_google_file_jwt_transporter : Str → Str → Act Os Http
  unfolding from_file
  build_google_file_jwt_transporter key_path scope = do
    json_key ← read_file (oauth.expand_env key_path)
    settle (from_file (oauth.from_json json_key scope))

  -- BuildGCEMetadatTransporter, which does not look at the account that it is given
  unfoldable pub build_gce_metadat_transporter : Str → Outcome Http
  build_gce_metadat_transporter service_account = ok (oauth.compute_client [])

  of_jwt_conf : Option JwtConf → Outcome Http
  of_jwt_conf none = fail (message "invalid config: missing jwt config struct")
  of_jwt_conf (some j) = build_google_jwt_transporter j

  -- NewGoogleClient, on the file system and the network
  unfoldable pub new_google_client : Config → Act (Os × N) Http
  unfolding of_jwt_conf
  new_google_client conf =
      if str_eq conf.auth_method auth_gce_default_oauth_token
      then on_second (oauth.default_client [])
      else if str_eq conf.auth_method auth_gce_meta_key_source
      then settle (build_gce_metadat_transporter [])
      else if str_eq conf.auth_method auth_jwt_key_source
      then settle (of_jwt_conf conf.jwt_conf)
      else if str_eq conf.auth_method auth_google_jwt_key_source
      then (if str_eq conf.scope []
          then throw (message "invalid config: missing devstorage scope")
          else on_first (build_google_file_jwt_transporter conf.jwt_file conf.scope))
      else throw (message "bad AuthMethod: %v")

  -- gcsCommonClient, with the id that uuid gives
  unfoldable pub gcs_common_client : Str → Http → Config → Act (Os × N) (Gcs × GcsFs)
  gcs_common_client uid http conf = do
    gcs ← on_second (oauth.new_storage http)
    g ← on_first (new_gcs_store uid conf.bucket conf.tmp_dir max_results)
    return (gcs, g)

  -- provider
  unfoldable pub provide : Str → Config → Act (Os × N) (Gcs × GcsFs)
  provide uid conf = do http ← new_google_client conf; gcs_common_client uid http conf
