-- ===== src/S3/Connecting.antt =====
-- NewClient of awss3/store.go, and the provider that the package registers. What session.New and
-- s3.New of the SDK make of a configuration is a parameter.
pub mod Credentials
use cloudstorage.Base.{
  ℕ, zero, suc, ◌+◌, ◌-◌, ◌*◌, ◌/◌, ◌%◌, ◌^◌, ◌≤◌, ◌<◌, ◌≡◌, refl, sym, ap, ◌∙◌, ◌≢◌, ◌↔◌, ◌⊎◌, inl,
  inr, Bool, true, false, not, ◌&&◌, ◌||◌, Option, none, some, List, [], ◌∷◌, ◌++◌, map, arith,
  Bool-cases, Option-cases, present, Str, String, lit, str_eq, str_eq_iff, str_eq_refl, ltb, leb,
  ◌==◌, ==_iff, if◌then◌else◌, length, take, drop, keep, All, get_elem?, length-append, length-drop,
  drop-nil, Err, object_not_found, object_exists, iterator_done, canceled, deadline_exceeded,
  not_exist, exist, file_closed, bad_handle, eof, io, message, Outcome, ok, fail, Act, return,
  throw, attempt, ◌>>=◌, ◌>>◌, proceed, proceed-eq-ok, Outcome-cases, deferring, quietly,
  describing, described, proceed-ok, settle, on_first, on_second, described-eq-ok,
}
use cloudstorage.Base.Dict.{Dict}
use cloudstorage.Config.{JsonHelper, Config}
use cloudstorage.Os.{Os}
use cloudstorage.S3.Store.{Fs, new_store}

-- What is set of an aws.Config. A base URL comes with addresses that have the bucket in the path.
pub record AwsConfig : Type 0 where
  pub region : Str
  pub credentials : Option (Str × Str)
  pub endpoint : Option Str
  pub force_path_style : Bool
  pub disable_ssl : Bool

-- session.New, which may give no session, and s3.New
pub record Sdk (Sess Cl : Type 0) : Type 0 where
  pub new_session : AwsConfig → Option Sess
  pub new_client : Sess → Cl

abbrev pub store_type : Str
store_type = lit "s3"

abbrev pub auth_access_key : Str
auth_access_key = lit "aws_access_key"

abbrev conf_key_access_key : Str
conf_key_access_key = lit "access_key"

abbrev conf_key_access_secret : Str
conf_key_access_secret = lit "access_secret"

abbrev conf_key_disable_ssl : Str
conf_key_disable_ssl = lit "disable_ssl"

module _ (json : JsonHelper) where
  abbrev pub access_key : Config → Str
  access_key conf = json.string conf.settings conf_key_access_key

  abbrev pub secret_key : Config → Str
  secret_key conf = json.string conf.settings conf_key_access_secret

  -- The switch over the ways to authenticate
  credentials_of : Config → Outcome (Str × Str)
  credentials_of conf =
      if str_eq conf.auth_method auth_access_key
      then (if str_eq (access_key conf) []
          then fail (message "no settings.access_key")
          else if str_eq (secret_key conf) []
          then fail (message "no settings.access_secret")
          else ok (access_key conf, secret_key conf))
      else fail (message "No auth provided")

  -- The configuration for the SDK that NewClient builds.
  unfoldable pub aws_config : Config → Str × Str → AwsConfig
  aws_config conf keys = record {
    region = if str_eq conf.region [] then lit "us-east-1" else conf.region;
    credentials = some keys;
    endpoint = if str_eq conf.base_url [] then none else some conf.base_url;
    force_path_style = not (str_eq conf.base_url []);
    disable_ssl = json.bool conf.settings conf_key_disable_ssl;
  }

  module _ {Sess Cl : Type 0} (sdk : Sdk Sess Cl) where
    with_session : Option Sess → Outcome (Cl × Sess)
    with_session none = fail (message "no valid aws session was created")
    with_session (some sess) = ok (sdk.new_client sess, sess)

    connected : Config → Outcome (Str × Str) → Outcome (Cl × Sess)
    unfolding with_session aws_config
    connected conf (fail e) = fail e
    connected conf (ok keys) = with_session (sdk.new_session (aws_config conf keys))

    -- NewClient
    unfoldable pub new_client : Config → Outcome (Cl × Sess)
    unfolding credentials_of connected
    new_client conf = connected conf (credentials_of conf)

    store_on : Str → Config → Cl × Sess → Act Os (Cl × Sess × Fs)
    store_on uid conf (client, sess) = do f ← new_store uid conf; return (client, sess, f)

    -- What init registers, with the id that uuid gives
    unfoldable pub provide : Str → Config → Act Os (Cl × Sess × Fs)
    unfolding store_on
    provide uid conf = settle (new_client conf) >>= store_on uid conf
