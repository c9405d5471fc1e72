-- ===== src/S3/Connecting/Credentials.antt =====
-- Which configurations NewClient of awss3/store.go takes, and what its store has of them.
use cloudstorage.Base.{
  ◌≡◌, refl, false, true, inl, inr, Bool-cases, lit, str_eq, ◌∷◌, sym, ap, ◌∙◌, ◌≢◌, ◌↔◌, Option,
  none, some, [], arith, Str, str_eq_iff, Outcome, ok, fail, return, proceed-eq-ok, settle-eq-ok,
}
use cloudstorage.Config.{JsonHelper, Config}
use cloudstorage.Os.{Os}
use cloudstorage.S3.Store.{Fs, new_store}
use cloudstorage.S3.Connecting.{
  Sdk, AwsConfig, auth_access_key, access_key, secret_key, credentials_of, aws_config, with_session,
  connected, new_client, store_on, provide,
}

str_eq-named : (s : Str) → s ≢ [] → str_eq s [] ≡ false
unfolding str_eq
str_eq-named [] ne = absurd (ne refl)
str_eq-named (c ∷ s) ne = refl

str_eq-there : (s : Str) → str_eq s [] ≡ false → s ≢ []
str_eq-there s full e = ground (arith, str_eq_iff s [])

module _ (json : JsonHelper) where
  abbrev pub HasCredentials : Config → Type 0
  HasCredentials conf =
      (conf.auth_method ≡ auth_access_key)
      × (access_key json conf ≢ [])
      × (secret_key json conf ≢ [])

  credentials_of-ok :
      (conf : Config) (keys : Str × Str)
      → credentials_of json conf ≡ ok keys
      → HasCredentials conf × (keys ≡ (access_key json conf, secret_key json conf))
  unfolding credentials_of
  credentials_of-ok conf keys e = ground (
    arith,
    str_eq_iff conf.auth_method auth_access_key,
    str_eq_iff (access_key json conf) [],
    str_eq_iff (secret_key json conf) [],
  )

  credentials_of-HasCredentials :
      (conf : Config)
      → HasCredentials conf
      → credentials_of json conf ≡ ok (access_key json conf, secret_key json conf)
  unfolding credentials_of
  credentials_of-HasCredentials conf h = ground (
    arith,
    str_eq_iff conf.auth_method auth_access_key,
    str_eq_iff (access_key json conf) [],
    str_eq_iff (secret_key json conf) [],
  )

  -- What the SDK is given: the region or its default, both keys, the base URL, if there is one, with
  -- addresses that have the bucket in the path, and whether there is no TLS.
  abbrev pub Asks : Config → AwsConfig → Type 0
  Asks conf c =
      (conf.region ≡ [] → c.region ≡ lit "us-east-1")
      × (conf.region ≢ [] → c.region ≡ conf.region)
      × (c.credentials
          ≡ some (
            json.string conf.settings (lit "access_key"),
            json.string conf.settings (lit "access_secret"),
          ))
      × (conf.base_url ≡ [] → (c.endpoint ≡ none) × (c.force_path_style ≡ false))
      × (conf.base_url ≢ [] → (c.endpoint ≡ some conf.base_url) × (c.force_path_style ≡ true))
      × (c.disable_ssl ≡ json.bool conf.settings (lit "disable_ssl"))

  asked : Config → AwsConfig
  unfolding aws_config
  asked conf = aws_config json conf (access_key json conf, secret_key json conf)

  asked-Asks : (conf : Config) → Asks conf (asked conf)
  unfolding asked
  asked-Asks conf = (
    λ none_there. rw none_there (unfold str_eq in refl),
    λ named. rw (str_eq-named conf.region named) refl,
    refl,
    λ none_there. rw none_there (unfold str_eq in (refl, refl)),
    λ named. rw (str_eq-named conf.base_url named) (refl, refl),
    refl,
  )

  Asks-unique : (conf : Config) (c : AwsConfig) → Asks conf c → asked conf ≡ c
  unfolding asked
  Asks-unique conf c (default, named, keys, no_url, url, tls) =
      let given = asked-Asks conf in
      let region : (asked conf).region ≡ c.region = elim (Bool-cases (str_eq conf.region [])) [
        | inl e ↦ let top = (str_eq_iff conf.region []).0 e in given.0 top ∙ sym (default top)
        | inr e ↦ let low = str_eq-there conf.region e in given.1 low ∙ sym (named low)
      ] in
      let base : ((asked conf).endpoint ≡ c.endpoint)
          × ((asked conf).force_path_style ≡ c.force_path_style) =
        elim (Bool-cases (str_eq conf.base_url [])) [
          | inl e ↦
              let top = (str_eq_iff conf.base_url []).0 e in
              let (a, b) = no_url top in let (a', b') = given.3 top in (a' ∙ sym a, b' ∙ sym b)
          | inr e ↦
              let low = str_eq-there conf.base_url e in
              let (a, b) = url low in let (a', b') = given.4 low in (a' ∙ sym a, b' ∙ sym b)
        ] in
      λ i. record {
        region = region i;
        credentials = sym keys i;
        endpoint = base.0 i;
        force_path_style = base.1 i;
        disable_ssl = sym tls i;
      }

  module _ {Sess Cl : Type 0} (sdk : Sdk Sess Cl) where
    -- The session and the client are those that the SDK gives for what the configuration asks for.
    abbrev pub IsReady : Config → Cl → Sess → Type 0
    IsReady conf client sess =
        HasCredentials conf
        × ((c : AwsConfig) × Asks conf c × (sdk.new_session c ≡ some sess))
        × (sdk.new_client sess ≡ client)

    with_session-ok :
        (s : Option Sess) (client : Cl) (sess : Sess)
        → with_session json sdk s ≡ ok (client, sess)
        → (s ≡ some sess) × (sdk.new_client sess ≡ client)
    unfolding with_session
    with_session-ok none client sess e = cc
    with_session-ok (some s) client sess e = (cc, cc)

    connected-ok :
        (conf : Config) (r : Outcome (Str × Str)) (client : Cl) (sess : Sess)
        → connected json sdk conf r ≡ ok (client, sess)
        → (keys : Str × Str) × (r ≡ ok keys)
          × (sdk.new_session (aws_config json conf keys) ≡ some sess)
          × (sdk.new_client sess ≡ client)
    unfolding connected
    connected-ok conf (fail x) client sess e = cc
    connected-ok conf (ok keys) client sess e =
        let (a, b) = with_session-ok (sdk.new_session (aws_config json conf keys)) client sess e in
        (keys, refl, a, b)

    pub new_client-ok :
        (conf : Config) (client : Cl) (sess : Sess)
        → new_client json sdk conf ≡ ok (client, sess)
        → IsReady conf client sess
    unfolding new_client
    new_client-ok conf client sess e =
        let (keys, got, a, b) = connected-ok conf (credentials_of json conf) client sess e in
        let (has, same) = credentials_of-ok conf keys got in
        let a' : sdk.new_session (asked conf) ≡ some sess = unfold asked in rw same at a in
        (has, (asked conf, asked-Asks conf, a'), b)

    -- NewClient of S3 succeeds exactly if the method is that of access keys, both keys are there, and the
    -- SDK gives a session for these keys, the region or its default us-east-1, the base URL, if there
    -- is one, with the bucket in the path, and the switch for TLS; the client is that of this session.
    pub new_client-IsReady :
        (conf : Config) (client : Cl) (sess : Sess)
        → (new_client json sdk conf ≡ ok (client, sess)) ↔ IsReady conf client sess
    unfolding new_client connected with_session asked
    new_client-IsReady conf client sess = (
      new_client-ok conf client sess,
      λ h.
          let (has, (c, asks, session), made) = h in
          let got : sdk.new_session (asked conf) ≡ some sess =
            rw (Asks-unique conf c asks) session in
          rw (credentials_of-HasCredentials conf has, got, made) refl,
    )

pub new_store-ok :
    (uid : Str) (conf : Config) (os os' : Os) (f : Fs)
    → new_store uid conf os ≡ (ok f, os')
    → (f.bucket ≡ conf.bucket) × (f.cachepath ≡ conf.tmp_dir) × (conf.tmp_dir ≢ [])
unfolding new_store
new_store-ok uid conf os os' f e = ground (arith, str_eq_iff conf.tmp_dir [])

module _ (json : JsonHelper) {Sess Cl : Type 0} (sdk : Sdk Sess Cl) (uid : Str) (conf : Config)
    (os os' : Os) (client : Cl) (sess : Sess) (f : Fs) where
  store_on-ok :
      (made : Cl × Sess)
      → store_on json sdk uid conf made os ≡ (ok (client, sess, f), os')
      → (made ≡ (client, sess))
        × (f.bucket ≡ conf.bucket)
        × (f.cachepath ≡ conf.tmp_dir)
        × (conf.tmp_dir ≢ [])
  unfolding store_on
  store_on-ok (c, s) e =
      let (g, os1, e1, e2) =
        proceed-eq-ok (λ (g : Fs). return (c, s, g)) (new_store uid conf os) e in
      let (a, b, d) = new_store-ok uid conf os os1 g e1 in
      let same : g ≡ f = cc in (cc, rw (sym same) a, rw (sym same) b, d)

  pub provide-ok :
      provide json sdk uid conf os ≡ (ok (client, sess, f), os')
      → IsReady json sdk conf client sess
        × (f.bucket ≡ conf.bucket)
        × (f.cachepath ≡ conf.tmp_dir)
        × (conf.tmp_dir ≢ [])
  unfolding provide
  provide-ok e =
      let (made, e1, e2) =
        settle-eq-ok (store_on json sdk uid conf) (new_client json sdk conf) os e in
      let (same, bucket, cachepath, there) = store_on-ok made e2 in
      (new_client-ok json sdk conf client sess (e1 ∙ ap ok same), bucket, cachepath, there)
