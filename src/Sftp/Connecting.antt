-- ===== src/Sftp/Connecting.antt =====
-- NewClientFromConfig, NewClient and NewStore of sftp/store.go, over the packages ssh and sftp, on a
-- state of the network.
pub mod Credentials
use cloudstorage.Base.{
  ℕ, zero, suc, ◌+◌, ◌-◌, ◌*◌, ◌/◌, ◌%◌, ◌^◌, ◌≤◌, ◌<◌, ◌≡◌, refl, sym, ap, ◌∙◌, ◌≢◌, ◌↔◌, ◌⊎◌, inl,
  inr, Bool, true, false, not, ◌&&◌, ◌||◌, Option, none, some, List, [], ◌∷◌, ◌++◌, map, arith,
  Bool-cases, Option-cases, present, Str, String, lit, str_eq, str_eq_iff, str_eq_refl, ltb, leb,
  ◌==◌, ==_iff, if◌then◌else◌, length, take, drop, keep, All, get_elem?, length-append, length-drop,
  drop-nil, Err, object_not_found, object_exists, iterator_done, canceled, deadline_exceeded,
  not_exist, exist, file_closed, bad_handle, eof, io, message, Outcome, ok, fail, Act, return,
  throw, attempt, ◌>>=◌, ◌>>◌, proceed, proceed-eq-ok, Outcome-cases, deferring, quietly,
  describing, described, proceed-ok, settle, mapped, described-eq-ok,
}
use cloudstorage.Base.Int.{ℤ}
use cloudstorage.Strings.{replace_byte}
use cloudstorage.Config.{JsonHelper, Config}
use cloudstorage.Sftp.Addr.{sftp_addr}
use cloudstorage.Sftp.Client.{Client}

-- ssh.AuthMethod, over the private keys of the package
pub data Proof (Key : Type 0) : Type 0 where
  password : Str → Proof Key
  public_keys : Key → Proof Key

-- What is set of an ssh.ClientConfig; the timeout is in seconds.
pub record SshConfig (Key : Type 0) : Type 0 where
  pub user : Str
  pub auth : List (Proof Key)
  pub ciphers : List Str
  pub checks_host_key : Bool
  pub timeout : ℕ

pub record Ssh (Key Conn Ftp N : Type 0) : Type 0 where
  pub parse_private_key : Str → Outcome Key
  pub dial : Str → SshConfig Key → Act N Conn
  pub new_client : Conn → Act N Ftp
  pub close : Conn → Act N (Unit {0})

abbrev pub store_type : Str
store_type = lit "sftp"

abbrev pub auth_user_key : Str
auth_user_key = lit "userkey"

abbrev pub auth_user_pass : Str
auth_user_pass = lit "userpass"

abbrev conf_key_user : Str
conf_key_user = lit "user"

abbrev conf_key_password : Str
conf_key_password = lit "password"

abbrev conf_key_private_key : Str
conf_key_private_key = lit "privatekey"

abbrev conf_key_host : Str
conf_key_host = lit "host"

abbrev conf_key_port : Str
conf_key_port = lit "port"

abbrev conf_key_folder : Str
conf_key_folder = lit "folder"

abbrev cipher_list : List Str
cipher_list =
    lit "aes128-ctr"
    ∷ lit "aes192-ctr"
    ∷ lit "aes256-ctr"
    ∷ lit "aes128-gcm@openssh.com"
    ∷ lit "arcfour256"
    ∷ lit "arcfour128"
    ∷ lit "aes128-cbc"
    ∷ []

abbrev ssh_config : {Key : Type 0} → Str → Proof Key → SshConfig Key
ssh_config user proof = record {
  user = user;
  auth = proof ∷ [];
  ciphers = cipher_list;
  checks_host_key = false;
  timeout = 300;
}

-- ConfigUserPass
unfoldable pub config_user_pass : {Key : Type 0} → Str → Str → SshConfig Key
config_user_pass user pass = ssh_config user (password pass)

module _ {Key Conn Ftp N : Type 0} (ssh : Ssh Key Conn Ftp N) where
  with_key : Str → Outcome Key → Outcome (SshConfig Key)
  with_key user (fail e) = fail (message "bad private key: %s")
  with_key user (ok key) = ok (ssh_config user (public_keys key))

  -- ConfigUserKey
  unfoldable pub config_user_key : Str → Str → Outcome (SshConfig Key)
  unfolding with_key
  config_user_key user text = with_key user (ssh.parse_private_key text)

  -- A connection that turns out not to be usable is closed.
  checked : Conn → Outcome Ftp → Act N Ftp
  checked conn (ok ftp) n = (ok ftp, n)
  checked conn (fail e) n = (fail e, (ssh.close conn n).1)

  abbrev client_of : Str → Config → Str → Ftp → Client × Ftp
  client_of uid conf folder ftp =
      (record { id = replace_byte uid b'-' []; cachepath = conf.tmp_dir; bucket = folder }, ftp)

  -- The client on a connection
  client_on : Conn → Act N Ftp
  unfolding checked
  client_on conn = do made ← attempt (ssh.new_client conn); checked conn made

  connect : Str → SshConfig Key → Act N Ftp
  unfolding client_on
  connect target config = do conn ← ssh.dial target config; client_on conn

  -- NewClient, with the id that uuid gives, and beside it the client of the package sftp
  unfoldable pub new_client : Str → Config → Str → ℤ → Str → SshConfig Key → Act N (Client × Ftp)
  unfolding connect
  new_client uid conf host port folder config =
      mapped (client_of uid conf folder)
        (do target ← settle (sftp_addr host port); connect target config)

  module _ (json : JsonHelper) where
    abbrev setting : Config → Str → Str
    setting conf key = json.string conf.settings key

    -- The switch over the ways to authenticate
    unfoldable pub ssh_config_of : Config → Outcome (SshConfig Key)
    ssh_config_of conf =
        if str_eq conf.auth_method auth_user_key
        then config_user_key (setting conf conf_key_user) (setting conf conf_key_private_key)
        else if str_eq conf.auth_method auth_user_pass
        then ok (config_user_pass (setting conf conf_key_user) (setting conf conf_key_password))
        else fail (message "invalid config.AuthMethod %q")

    -- NewClientFromConfig, which is what NewStore calls
    unfoldable pub new_client_from_config : Str → Config → Act N (Client × Ftp)
    new_client_from_config uid conf = do
      config ← settle (ssh_config_of conf)
      new_client uid conf (setting conf conf_key_host) (json.int conf.settings conf_key_port)
          (setting conf conf_key_folder) config
