-- ===== src/Sftp/Connecting/Credentials.antt =====
-- What NewClientFromConfig of sftp/store.go has of the configuration, and the connections it leaves.
use cloudstorage.Base.{
  ◌≡◌, refl, ap, ◌∙◌, ◌⊎◌, inl, inr, List, ◌∷◌, arith, Bool-cases, Str, str_eq, str_eq_iff, Err,
  Outcome, ok, fail, Act, ◌>>=◌, Outcome-cases, settle, settle-eq-ok, mapped, mapped-eq-ok,
}
use cloudstorage.Base.Int.{ℤ}
use cloudstorage.Config.{JsonHelper, Config}
use cloudstorage.Sftp.Addr.{sftp_addr}
use cloudstorage.Sftp.Client.{Client}
use cloudstorage.Sftp.Connecting.{
  SshConfig, Ssh, setting, conf_key_host, conf_key_port, conf_key_folder, auth_user_key,
  auth_user_pass, checked, client_of, client_on, connect, new_client, ssh_config_of,
  new_client_from_config,
}

-- The documented behaviour of connections: Dial opens one, or none if it fails; the client of the package
-- sftp opens and closes none; Close ends the one that was dialed last.
pub record IsSsh {Key Conn Ftp N : Type 0} (ssh : Ssh Key Conn Ftp N) : Type 0 where
  pub connections : N → List Conn
  pub dial-ok :
      (target : Str) (config : SshConfig Key) (n n' : N) (conn : Conn)
      → ssh.dial target config n ≡ (ok conn, n')
      → connections n' ≡ conn ∷ connections n
  pub dial-fail :
      (target : Str) (config : SshConfig Key) (n n' : N) (e : Err)
      → ssh.dial target config n ≡ (fail e, n')
      → connections n' ≡ connections n
  pub new_client_lem : (conn : Conn) (n : N) → connections (ssh.new_client conn n).1 ≡ connections n
  pub close_lem :
      (conn : Conn) (n : N) (others : List Conn)
      → connections n ≡ conn ∷ others
      → connections (ssh.close conn n).1 ≡ others

module _ {Key Conn Ftp N : Type 0} (ssh : Ssh Key Conn Ftp N) where
  module _ (L : IsSsh ssh) (before : List Conn) where
    -- One connection more than before on a success, and none more on a failure
    abbrev pub Leaves : {A : Type 0} → Outcome A × N → Type 0
    Leaves (ok a, n) = (conn : Conn) × (L.connections n ≡ conn ∷ before)
    Leaves (fail e, n) = L.connections n ≡ before

    checked-Leaves :
        (conn : Conn) (r : Outcome Ftp) (n : N)
        → L.connections n ≡ conn ∷ before
        → Leaves (checked ssh conn r n)
    unfolding checked
    checked-Leaves conn (ok ftp) n e = (conn, e)
    checked-Leaves conn (fail x) n e = L.close_lem conn n before e

    client_on-Leaves :
        (conn : Conn) (n : N) → L.connections n ≡ conn ∷ before → Leaves (client_on ssh conn n)
    unfolding client_on
    client_on-Leaves conn n e =
        checked-Leaves conn (ssh.new_client conn n).0 (ssh.new_client conn n).1
          (L.new_client_lem conn n ∙ e)

    connect-Leaves :
        (target : Str) (config : SshConfig Key) (n : N)
        → L.connections n ≡ before
        → Leaves (connect ssh target config n)
    unfolding connect
    connect-Leaves target config n e = elim (Outcome-cases (ssh.dial target config n)) [
      | inl (conn, n', went) ↦
          rw went (
            client_on-Leaves conn n'
              (L.dial-ok target config n n' conn went ∙ ap (λ c. conn ∷ c) e))
      | inr (x, n', failed) ↦ rw failed (L.dial-fail target config n n' x failed ∙ e)
    ]

    mapped-Leaves :
        {A B : Type 0} (f : A → B) (m : Act N A) (n : N) → Leaves (m n) → Leaves (mapped f m n)
    mapped-Leaves f m n l = elim (Outcome-cases (m n)) [
      | inl (a, n', e) ↦ rw e (rw e at l)
      | inr (x, n', e) ↦ rw e (rw e at l)
    ]

    settled-Leaves :
        {A B : Type 0} (r : Outcome A) (f : A → Act N B) (n : N)
        → L.connections n ≡ before
        → ((a : A) → Leaves (f a n))
        → Leaves ((settle r >>= f) n)
    settled-Leaves (ok a) f n e l = l a
    settled-Leaves (fail x) f n e l = e

    new_client-Leaves :
        (uid : Str) (conf : Config) (host : Str) (port : ℤ) (folder : Str) (config : SshConfig Key)
        (n : N)
        → L.connections n ≡ before
        → Leaves (new_client ssh uid conf host port folder config n)
    unfolding new_client
    new_client-Leaves uid conf host port folder config n e =
        mapped-Leaves (client_of ssh uid conf folder)
          (settle (sftp_addr host port) >>= λ target. connect ssh target config) n
          (settled-Leaves (sftp_addr host port) (λ target. connect ssh target config) n e
            (λ target. connect-Leaves target config n e))

  -- NewClientFromConfig that succeeds leaves one connection open more than there were, and one that
  -- fails, for whatever reason, leaves those open that were, where Dial, the client of the package sftp
  -- and Close of a connection do what is documented.
  pub new_client_from_config-Leaves :
      (json : JsonHelper) (L : IsSsh ssh) (uid : Str) (conf : Config) (n : N)
      → Leaves L (L.connections n) (new_client_from_config ssh json uid conf n)
  unfolding new_client_from_config
  new_client_from_config-Leaves json L uid conf n =
      settled-Leaves L (L.connections n) (ssh_config_of ssh json conf)
        (λ config.
          new_client ssh uid conf (setting ssh json conf conf_key_host)
            (json.int conf.settings conf_key_port) (setting ssh json conf conf_key_folder) config)
        n refl
        (λ config.
          new_client-Leaves L (L.connections n) uid conf (setting ssh json conf conf_key_host)
            (json.int conf.settings conf_key_port) (setting ssh json conf conf_key_folder) config n
            refl)

  -- A method of authentication that the code knows, with an address that can be dialed
  module _ (json : JsonHelper) where
    abbrev pub IsKnown : Config → Type 0
    IsKnown conf =
        ((conf.auth_method ≡ auth_user_key) ⊎ (conf.auth_method ≡ auth_user_pass))
        × ((target : Str) × (sftp_addr (setting ssh json conf conf_key_host)
                (json.int conf.settings conf_key_port)
              ≡ ok target))

    ssh_config_of-ok :
        (conf : Config) (config : SshConfig Key)
        → ssh_config_of ssh json conf ≡ ok config
        → (conf.auth_method ≡ auth_user_key) ⊎ (conf.auth_method ≡ auth_user_pass)
    unfolding ssh_config_of
    ssh_config_of-ok conf config e = elim (Bool-cases (str_eq conf.auth_method auth_user_key)) [
      | inl same ↦ inl ((str_eq_iff conf.auth_method auth_user_key).0 same)
      | inr other ↦ inr (ground (arith, e, other, str_eq_iff conf.auth_method auth_user_pass))
    ]

    new_client-ok :
        (uid : Str) (conf : Config) (host : Str) (port : ℤ) (folder : Str) (config : SshConfig Key)
        (n n' : N) (m : Client) (ftp : Ftp)
        → new_client ssh uid conf host port folder config n ≡ (ok (m, ftp), n')
        → ((target : Str) × (sftp_addr host port ≡ ok target))
          × (m.cachepath ≡ conf.tmp_dir)
          × (m.bucket ≡ folder)
    unfolding new_client
    new_client-ok uid conf host port folder config n n' m ftp e =
        let (a, e1, e2) =
          mapped-eq-ok (client_of ssh uid conf folder)
            (settle (sftp_addr host port) >>= λ target. connect ssh target config) n e in
        let (target, e3, e4) =
          settle-eq-ok (λ target. connect ssh target config) (sftp_addr host port) n e1 in
        let same : m ≡ (client_of ssh uid conf folder a).0 = cc in
        ((target, e3), ap (λ (m : Client). m.cachepath) same, ap (λ (m : Client). m.bucket) same)

    pub new_client_from_config-ok :
        (uid : Str) (conf : Config) (n n' : N) (m : Client) (ftp : Ftp)
        → new_client_from_config ssh json uid conf n ≡ (ok (m, ftp), n')
        → IsKnown conf
          × (m.cachepath ≡ conf.tmp_dir)
          × (m.bucket ≡ setting ssh json conf conf_key_folder)
    unfolding new_client_from_config
    new_client_from_config-ok uid conf n n' m ftp e =
        let host = setting ssh json conf conf_key_host in
        let port = json.int conf.settings conf_key_port in
        let folder = setting ssh json conf conf_key_folder in
        let (config, e1, e2) =
          settle-eq-ok (λ config. new_client ssh uid conf host port folder config)
            (ssh_config_of ssh json conf) n e in
        let (address, cachepath, bucket) =
          new_client-ok uid conf host port folder config n n' m ftp e2 in
        ((ssh_config_of-ok conf config e1, address), cachepath, bucket)
