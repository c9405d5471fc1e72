-- ===== src/Azure/Connecting/Credentials.antt =====
-- Which configurations NewClient of azure/store.go takes, and what its store has of them.
use cloudstorage.Base.{
  ◌≡◌, sym, ap, ◌∙◌, ◌≢◌, [], arith, Str, str_eq_iff, Outcome, ok, fail, return, proceed-eq-ok,
  settle-eq-ok,
}
use cloudstorage.Config.{JsonHelper, Config}
use cloudstorage.Os.{Os}
use cloudstorage.Azure.Store.{Fs, new_store}
use cloudstorage.Azure.Connecting.{
  Sdk, auth_key, access_key, with_service, new_client, store_on, provide,
}

new_store-ok :
    (uid : Str) (conf : Config) (os os' : Os) (f : Fs)
    → new_store uid conf os ≡ (ok f, os')
    → (f.bucket ≡ conf.bucket) × (f.cachepath ≡ conf.tmp_dir) × (conf.tmp_dir ≢ [])
unfolding new_store
new_store-ok uid conf os os' f e = ground (arith, str_eq_iff conf.tmp_dir [])

module _ (json : JsonHelper) {Basic Blobs : Type 0} (sdk : Sdk Basic Blobs) where
  -- The client is the one that the SDK gives for the account and the key.
  abbrev pub IsReady : Config → Basic → Blobs → Type 0
  IsReady conf basic blobs =
      (conf.auth_method ≡ auth_key)
      × (access_key json sdk conf ≢ [])
      × (sdk.new_basic_client conf.project (access_key json sdk conf) ≡ ok basic)
      × (sdk.get_blob_service basic ≡ blobs)

  with_service-ok :
      (r : Outcome Basic) (basic : Basic) (blobs : Blobs)
      → with_service json sdk r ≡ ok (basic, blobs)
      → (r ≡ ok basic) × (sdk.get_blob_service basic ≡ blobs)
  unfolding with_service
  with_service-ok (fail x) basic blobs e = cc
  with_service-ok (ok b) basic blobs e = (cc, cc)

  pub new_client-ok :
      (conf : Config) (basic : Basic) (blobs : Blobs)
      → new_client json sdk conf ≡ ok (basic, blobs)
      → IsReady conf basic blobs
  unfolding new_client
  new_client-ok conf basic blobs e = ground (
    arith,
    str_eq_iff conf.auth_method auth_key,
    str_eq_iff (access_key json sdk conf) [],
    with_service-ok (sdk.new_basic_client conf.project (access_key json sdk conf)) basic blobs,
  )

  module _ (uid : Str) (conf : Config) (os os' : Os) (basic : Basic) (blobs : Blobs) (f : Fs) where
    store_on-ok :
        (made : Basic × Blobs)
        → store_on json sdk uid conf made os ≡ (ok (basic, blobs, f), os')
        → (made ≡ (basic, blobs))
          × (f.bucket ≡ conf.bucket)
          × (f.cachepath ≡ conf.tmp_dir)
          × (conf.tmp_dir ≢ [])
    unfolding store_on
    store_on-ok (c, s) e =
        let (g, os1, e1, e2) =
          proceed-eq-ok (λ (g : Fs). return (c, s, g)) (new_store uid conf os) e in
        let (a, b, d) = new_store-ok uid conf os os1 g e1 in
        let same : g ≡ f = cc in (cc, rw (sym same) a, rw (sym same) b, d)

    pub provide-ok :
        provide json sdk uid conf os ≡ (ok (basic, blobs, f), os')
        → IsReady conf basic blobs
          × (f.bucket ≡ conf.bucket)
          × (f.cachepath ≡ conf.tmp_dir)
          × (conf.tmp_dir ≢ [])
    unfolding provide
    provide-ok e =
        let (made, e1, e2) =
          settle-eq-ok (store_on json sdk uid conf) (new_client json sdk conf) os e in
        let (same, bucket, cachepath, there) = store_on-ok made e2 in
        (new_client-ok conf basic blobs (e1 ∙ ap ok same), bucket, cachepath, there)
