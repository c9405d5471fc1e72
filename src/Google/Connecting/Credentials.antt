-- ===== src/Google/Connecting/Credentials.antt =====
-- Which configurations google/client.go takes, and what the store of Google has of them.
use cloudstorage.Base.{
  ℕ, ◌≡◌, refl, sym, ap, ◌≢◌, inl, inr, Option, none, some, List, [], arith, Bool-cases, Str,
  str_eq, str_eq_iff, Outcome, ok, fail, Act, return, ◌>>=◌, proceed-eq-ok, settle, on_first,
  on_second, on_first-eq-ok,
}
use cloudstorage.Registry.{max_results}
use cloudstorage.Config.{JwtConf, Config, key_bytes}
use cloudstorage.Os.{Os}
use cloudstorage.Google.Store.{GcsFs, new_gcs_store}
use cloudstorage.Google.Connecting.{
  Oauth, auth_jwt_key_source, auth_google_jwt_key_source, auth_gce_meta_key_source,
  auth_gce_default_oauth_token, with_key, build_google_jwt_transporter, of_jwt_conf,
  new_google_client, gcs_common_client, provide,
}

-- The ways in which a configuration says where the token of Google comes from
pub data HasToken (conf : Config) : Type 0 where
  by_default : conf.auth_method ≡ auth_gce_default_oauth_token → HasToken conf
  by_metadata : conf.auth_method ≡ auth_gce_meta_key_source → HasToken conf
  by_key :
      (j : JwtConf) (key : List ℕ)
      → conf.auth_method ≡ auth_jwt_key_source
      → conf.jwt_conf ≡ some j
      → key_bytes j ≡ ok key
      → HasToken conf
  by_file : conf.auth_method ≡ auth_google_jwt_key_source → conf.scope ≢ [] → HasToken conf

module _ {Jwt Http Gcs N : Type 0} (oauth : Oauth Jwt Http Gcs N) where
  with_key-ok :
      (j : JwtConf) (r : Outcome (List ℕ)) (http : Http)
      → with_key oauth j r ≡ ok http
      → (key : List ℕ) × (r ≡ ok key)
  unfolding with_key
  with_key-ok j (ok key) http e = (key, refl)
  with_key-ok j (fail x) http e = cc

  of_jwt_conf-ok :
      (given : Option JwtConf) (http : Http)
      → of_jwt_conf oauth given ≡ ok http
      → (j : JwtConf) × (key : List ℕ) × (given ≡ some j) × (key_bytes j ≡ ok key)
  unfolding of_jwt_conf build_google_jwt_transporter
  of_jwt_conf-ok none http e = cc
  of_jwt_conf-ok (some j) http e =
      let (key, there) = with_key-ok j (key_bytes j) http e in (j, key, refl, there)

  new_google_client-ok :
      (conf : Config) (w w' : Os × N) (http : Http)
      → new_google_client oauth conf w ≡ (ok http, w')
      → HasToken conf
  unfolding new_google_client
  new_google_client-ok conf w w' http e =
      elim (Bool-cases (str_eq conf.auth_method auth_gce_default_oauth_token)) [
        | inl same ↦ by_default ((str_eq_iff conf.auth_method auth_gce_default_oauth_token).0 same)
        | inr d ↦ elim (Bool-cases (str_eq conf.auth_method auth_gce_meta_key_source)) [
          | inl same ↦ by_metadata ((str_eq_iff conf.auth_method auth_gce_meta_key_source).0 same)
          | inr m ↦ elim (Bool-cases (str_eq conf.auth_method auth_jwt_key_source)) [
            | inl same ↦
                let went : settle (of_jwt_conf oauth conf.jwt_conf) w ≡ (ok http, w') =
                  rw (d, m, same) at e in
                let (j, key, given, decoded) =
                  of_jwt_conf-ok conf.jwt_conf http
                    (ap (λ (x : Outcome Http × (Os × N)). x.0) went) in
                by_key j key ((str_eq_iff conf.auth_method auth_jwt_key_source).0 same) given
                  decoded
            | inr k ↦ elim (Bool-cases (str_eq conf.auth_method auth_google_jwt_key_source)) [
              | inl same ↦
                  by_file ((str_eq_iff conf.auth_method auth_google_jwt_key_source).0 same)
                    (λ empty. ground (arith, e, d, m, k, same, str_eq_iff conf.scope []))
              | inr f ↦ absurd (ground (arith, e, d, m, k, f))
            ]
          ]
        ]
      ]

  new_gcs_store-ok :
      (uid bucket cachepath : Str) (page_size : ℕ) (os os' : Os) (g : GcsFs)
      → new_gcs_store uid bucket cachepath page_size os ≡ (ok g, os')
      → (g.bucket ≡ bucket) × (g.cachepath ≡ cachepath) × (g.page_size ≡ page_size)
  unfolding new_gcs_store
  new_gcs_store-ok uid bucket cachepath page_size os os' g e = ground arith

  gcs_common_client-ok :
      (uid : Str) (http : Http) (conf : Config) (w w' : Os × N) (gcs : Gcs) (g : GcsFs)
      → gcs_common_client oauth uid http conf w ≡ (ok (gcs, g), w')
      → (g.bucket ≡ conf.bucket) × (g.cachepath ≡ conf.tmp_dir) × (g.page_size ≡ max_results)
  unfolding gcs_common_client
  gcs_common_client-ok uid http conf w w' gcs g e =
      let make : Act (Os × N) GcsFs =
        on_first (new_gcs_store uid conf.bucket conf.tmp_dir max_results) in
      let (c, w1, e1, f1) =
        proceed-eq-ok (λ (c : Gcs). make >>= λ g. return (c, g))
          (on_second (oauth.new_storage http) w) e in
      let (g', w2, e2, f2) = proceed-eq-ok (λ (g : GcsFs). return (c, g)) (make w1) f1 in
      let same : g' ≡ g = cc in
      rw (sym same) (
        new_gcs_store-ok uid conf.bucket conf.tmp_dir max_results w1.0 w2.0 g'
          (on_first-eq-ok (new_gcs_store uid conf.bucket conf.tmp_dir max_results) w1.0 w1.1 e2))

  pub provide-ok :
      (uid : Str) (conf : Config) (w w' : Os × N) (gcs : Gcs) (g : GcsFs)
      → provide oauth uid conf w ≡ (ok (gcs, g), w')
      → HasToken conf
        × (g.bucket ≡ conf.bucket)
        × (g.cachepath ≡ conf.tmp_dir)
        × (g.page_size ≡ max_results)
  unfolding provide
  provide-ok uid conf w w' gcs g e =
      let (http, w1, e1, f1) =
        proceed-eq-ok (λ http. gcs_common_client oauth uid http conf)
          (new_google_client oauth conf w) e in
      let (bucket, cachepath, page_size) = gcs_common_client-ok uid http conf w1 w' gcs g f1 in
      (new_google_client-ok conf w w1 http e1, bucket, cachepath, page_size)
