-- ===== src/Tests/Drivers.antt =====
-- Stores from configurations, over packages that take every key.
use cloudstorage.Base.{
  ℕ, ◌≡◌, refl, ◌↔◌, false, Option, none, some, List, [], ◌∷◌, arith, Str, lit, str_eq, io, ok,
  fail,
}
use cloudstorage.Base.Int.{pos}
use cloudstorage.Base.Dict
use cloudstorage.Base.Dict.{Dict}
use cloudstorage.Config.{JsonHelper, Config}
use cloudstorage.Registry
use cloudstorage.Registry.{with_defaults}
use cloudstorage.Os
use cloudstorage.Os.{Os}
use cloudstorage.Strings
use cloudstorage.Strings.Paths
use cloudstorage.Google.Connecting.{Oauth}
use cloudstorage.S3.Store as S3Store
use cloudstorage.S3.Connecting as S3
use cloudstorage.S3.Connecting.Credentials.{IsReady, new_client-IsReady}
use cloudstorage.Azure.Connecting as Azure
use cloudstorage.Sftp.Connecting.{Ssh, new_client_from_config}
use cloudstorage.Sftp.Connecting.Credentials.{IsSsh, Leaves, new_client_from_config-Leaves}
use cloudstorage.Drivers
use cloudstorage.Drivers.{Driver, Store, Providers, awss3, localfs, sftp, s3_store, type_of, init}
use cloudstorage.Drivers.Made.{Fits, new_store-Fits}
use cloudstorage.Tests.Containers.{disk}

abbrev or_nothing : Option Str → Str
or_nothing none = []
or_nothing (some text) = text

abbrev json : JsonHelper
json = record {
  string = λ settings key. or_nothing (Dict.lookup key settings);
  int = λ settings key. pos 22;
  bool = λ settings key. false;
}

-- Clients are numbers, and the network is the list of its connections.
abbrev oauth : Oauth ℕ ℕ ℕ (List ℕ)
oauth = record {
  default_client = λ scope n. (ok 1, n);
  compute_client = λ account. 2;
  from_config = λ c. 3;
  from_json = λ key scope. ok 4;
  client = λ jwt. jwt;
  expand_env = λ path. path;
  new_storage = λ http n. (ok http, n);
}

abbrev aws : S3.Sdk Str ℕ
aws = record { new_session = λ c. some c.region; new_client = λ sess. 5 }

abbrev az : Azure.Sdk ℕ ℕ
az = record { new_basic_client = λ account key. ok 6; get_blob_service = λ basic. 7 }

hung_up : List ℕ → List ℕ
hung_up [] = []
hung_up (c ∷ n) = n

-- A server that takes the connection and refuses its client
abbrev ssh : Ssh ℕ ℕ ℕ (List ℕ)
ssh = record {
  parse_private_key = λ text. ok 8;
  dial = λ target config n. (ok 9, 9 ∷ n);
  new_client = λ conn n. (fail io, n);
  close = λ conn n. (ok tt, hung_up n);
}

ssh-IsSsh : IsSsh ssh
unfolding hung_up
ssh-IsSsh = record {
  connections = λ n. n;
  dial-ok = λ target config n n' conn e. ground arith;
  dial-fail = λ target config n n' e failed. ground arith;
  new_client_lem = λ conn n. refl;
  close_lem = λ conn n others e. rw e refl;
}

abbrev conf : Config
conf = record {
  kind = lit "s3";
  auth_method = lit "aws_access_key";
  project = [];
  region = [];
  bucket = lit "b";
  page_size = pos 0;
  jwt_conf = none;
  jwt_file = [];
  base_url = [];
  scope = [];
  local_fs = [];
  tmp_dir = [];
  settings = (lit "access_key", lit "k") ∷ (lit "access_secret", lit "s") ∷ [];
  log_prefix = [];
}

new_client-IsReady_example :
    (S3.new_client json aws conf ≡ ok (5, lit "us-east-1"))
    ↔ IsReady json aws conf 5 (lit "us-east-1")
new_client-IsReady_example = new_client-IsReady json aws conf 5 (lit "us-east-1")

abbrev by_password : Config
by_password = record conf {
  kind = lit "sftp";
  auth_method = lit "userpass";
  settings = (lit "host", lit "h") ∷ [];
}

new_client_from_config-Leaves_example :
    Leaves ssh ssh-IsSsh (3 ∷ []) (new_client_from_config ssh json (lit "u") by_password (3 ∷ []))
unfolding ssh-IsSsh
new_client_from_config-Leaves_example =
    new_client_from_config-Leaves ssh json ssh-IsSsh (lit "u") by_password (3 ∷ [])

abbrev imported : Providers json oauth aws az ssh (lit "u")
imported =
    (lit "s3", Registry.reading (Drivers.provide json oauth aws az ssh (lit "u") awss3))
    ∷ (lit "sftp", Registry.reading (Drivers.provide json oauth aws az ssh (lit "u") sftp))
    ∷ []

abbrev bucket : S3Store.Fs
bucket = record { page_size = 3000; id = lit "u"; bucket = lit "b"; cachepath = lit "t" }

abbrev world : Os × List ℕ
world = ((S3.provide json aws (lit "u") (with_defaults (lit "t") conf) disk).1, [])

abbrev store : Store ℕ ℕ Str ℕ ℕ ℕ
store = s3_store 5 (lit "us-east-1") bucket

packages_register : init json oauth aws az ssh (lit "u") (awss3 ∷ sftp ∷ []) [] ≡ ok imported
unfolding init Drivers.store_type Registry.register Dict.lookup Dict.insert str_eq
packages_register = refl

store_is_made :
    Registry.new_store (lit "t") imported (conf, (disk, []))
    ≡ (ok store, (with_defaults (lit "t") conf, world))
unfolding Registry.new_store Drivers.provide S3.provide S3.new_client str_eq Dict.lookup
    S3Store.new_store Os.mkdir_all Strings.split Paths.clean Strings.has_prefix Strings.join
    Strings.replace_byte
store_is_made = refl

new_store-Fits_example :
    (type_of store ≡ conf.kind)
    × (with_defaults (lit "t") conf ≡ with_defaults (lit "t") conf)
    × Fits json oauth aws az ssh store (with_defaults (lit "t") conf)
new_store-Fits_example =
    new_store-Fits json oauth aws az ssh (lit "u") (lit "t") (awss3 ∷ sftp ∷ []) imported conf
      (with_defaults (lit "t") conf) (disk, []) world store packages_register store_is_made
