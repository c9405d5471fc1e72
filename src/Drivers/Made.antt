-- ===== src/Drivers/Made.antt =====
-- A store that NewStore gives out is of the type of its configuration, and has its settings.
use cloudstorage.Base.{
  ◌≡◌, refl, sym, ◌≢◌, inl, inr, some, List, [], ◌∷◌, arith, Bool-cases, Option-cases, Str, lit,
  str_eq, str_eq_iff, All, Outcome, ok, fail, on_first, on_second, on_first-eq-ok, on_second-eq-ok,
  mapped-eq-ok,
}
use mathlib.Core.Path.{subst}
use cloudstorage.Base.Dict
use cloudstorage.Base.Dict.{Dict}
use cloudstorage.Config.{JsonHelper, Config}
use cloudstorage.Registry.{StoreProvider, reading, with_defaults, register, max_results, new_store}
use cloudstorage.Registry.Laws.{register-ok}
use cloudstorage.Os.{Os}
use cloudstorage.LocalFs.Store as LocalFs
use cloudstorage.LocalFs.Store.{LocalStore, new_local_store}
use cloudstorage.Google.Connecting as Google
use cloudstorage.Google.Connecting.{Oauth}
use cloudstorage.Google.Connecting.Credentials as GoogleLaws
use cloudstorage.Google.Connecting.Credentials.{HasToken}
use cloudstorage.S3.Connecting as S3
use cloudstorage.S3.Connecting.Credentials as S3Laws
use cloudstorage.Azure.Connecting as Azure
use cloudstorage.Azure.Connecting.Credentials as AzureLaws
use cloudstorage.Sftp.Connecting as Sftp
use cloudstorage.Sftp.Connecting.{Ssh}
use cloudstorage.Sftp.Connecting.Credentials as SftpLaws
use cloudstorage.Drivers.{
  Driver, localfs, google, awss3, azure, sftp, store_type, Store, local_store, gcs_store, s3_store,
  azure_store, sftp_store, type_of, of_google, of_s3, of_azure, of_sftp, provide, Providers, init,
}

-- A result that went on from a result
chained-ok :
    {A B : Type 0} (r : Outcome A) (f : A → Outcome B) (b : B)
    → elim r [ fail x ↦ fail x | ok a ↦ f a ] ≡ ok b
    → (a : A) × (r ≡ ok a) × (f a ≡ ok b)
chained-ok (ok a) f b e = (a, refl, e)
chained-ok (fail x) f b e = cc

module _ {Jwt Http Gcs Cl Sess Basic Blobs Key Conn Ftp N : Type 0} (json : JsonHelper)
    (oauth : Oauth Jwt Http Gcs N) (aws : S3.Sdk Sess Cl) (az : Azure.Sdk Basic Blobs)
    (ssh : Ssh Key Conn Ftp N) where
  -- What a store has of its configuration, and what the configuration must have had
  abbrev pub Fits : Store Gcs Cl Sess Basic Blobs Ftp → Config → Type 0
  Fits (local_store l) conf =
      (l.storepath ≡ conf.local_fs)
      × (l.cachepath ≡ conf.tmp_dir)
      × (conf.local_fs ≢ [])
      × (conf.local_fs ≢ conf.tmp_dir)
  Fits (gcs_store gcs g) conf =
      HasToken conf
      × (g.bucket ≡ conf.bucket)
      × (g.cachepath ≡ conf.tmp_dir)
      × (g.page_size ≡ max_results)
  Fits (s3_store client sess f) conf =
      S3Laws.IsReady json aws conf client sess
      × (f.bucket ≡ conf.bucket)
      × (f.cachepath ≡ conf.tmp_dir)
      × (conf.tmp_dir ≢ [])
  Fits (azure_store basic blobs f) conf =
      AzureLaws.IsReady json az conf basic blobs
      × (f.bucket ≡ conf.bucket)
      × (f.cachepath ≡ conf.tmp_dir)
      × (conf.tmp_dir ≢ [])
  Fits (sftp_store m ftp) conf =
      SftpLaws.IsKnown ssh json conf
      × (m.cachepath ≡ conf.tmp_dir)
      × (m.bucket ≡ json.string conf.settings (lit "folder"))

  new_local_store-ok :
      (uid storepath cachepath : Str) (os os' : Os) (l : LocalStore)
      → new_local_store uid storepath cachepath os ≡ (ok l, os')
      → (l.storepath ≡ storepath)
        × (l.cachepath ≡ cachepath)
        × (storepath ≢ [])
        × (storepath ≢ cachepath)
  unfolding new_local_store
  new_local_store-ok uid storepath cachepath os os' l e =
      ground (arith, str_eq_iff storepath [], str_eq_iff storepath cachepath)

  module _ (uid : Str) where
    provide-Fits :
        (d : Driver) (conf : Config) (w w' : Os × N) (st : Store Gcs Cl Sess Basic Blobs Ftp)
        → provide json oauth aws az ssh uid d conf w ≡ (ok st, w')
        → (type_of st ≡ store_type d) × Fits st conf
    unfolding provide type_of store_type LocalFs.provide
    provide-Fits localfs conf (os, n) w' st e =
        let (l, e1, same) =
          mapped-eq-ok local_store (on_first (LocalFs.provide uid conf)) (os, n) e in
        let fits =
          new_local_store-ok uid conf.local_fs conf.tmp_dir os w'.0 l
            (on_first-eq-ok (LocalFs.provide uid conf) os n e1) in
        rw (sym same) (refl, fits)
    provide-Fits google conf w w' st e =
        let ((gcs, g), e1, same) =
          mapped-eq-ok (of_google json oauth aws az ssh uid) (Google.provide oauth uid conf) w e in
        rw (sym same) (refl, GoogleLaws.provide-ok oauth uid conf w w' gcs g e1)
    provide-Fits awss3 conf (os, n) w' st e =
        let ((client, sess, f), e1, same) =
          mapped-eq-ok (of_s3 json oauth aws az ssh uid) (on_first (S3.provide json aws uid conf))
            (os, n) e in
        rw (sym same) (
          refl,
          S3Laws.provide-ok json aws uid conf os w'.0 client sess f
              (on_first-eq-ok (S3.provide json aws uid conf) os n e1),
        )
    provide-Fits azure conf (os, n) w' st e =
        let ((basic, blobs, f), e1, same) =
          mapped-eq-ok (of_azure json oauth aws az ssh uid)
            (on_first (Azure.provide json az uid conf)) (os, n) e in
        rw (sym same) (
          refl,
          AzureLaws.provide-ok json az uid conf os w'.0 basic blobs f
              (on_first-eq-ok (Azure.provide json az uid conf) os n e1),
        )
    provide-Fits sftp conf (os, n) w' st e =
        let ((m, ftp), e1, same) =
          mapped-eq-ok (of_sftp json oauth aws az ssh uid)
            (on_second (Sftp.new_client_from_config ssh json uid conf)) (os, n) e in
        rw (sym same) (
          refl,
          SftpLaws.new_client_from_config-ok ssh json uid conf n w'.1 m ftp
              (on_second-eq-ok (Sftp.new_client_from_config ssh json uid conf) os n e1),
        )

    abbrev IsDriver : Str × StoreProvider (Os × N) (Store Gcs Cl Sess Basic Blobs Ftp) → Type 0
    IsDriver (kind, p) =
        (conf conf' : Config) (w w' : Os × N) (st : Store Gcs Cl Sess Basic Blobs Ftp)
        → p (conf, w) ≡ (ok st, (conf', w'))
        → (type_of st ≡ kind) × (conf' ≡ conf) × Fits st conf

    reading-IsDriver :
        (d : Driver) → IsDriver (store_type d, reading (provide json oauth aws az ssh uid d))
    reading-IsDriver d conf conf' w w' st e =
        let made = provide json oauth aws az ssh uid d conf w in
        let went : made ≡ (ok st, w') = cc in
        let (kind, fits) = provide-Fits d conf w w' st went in (kind, cc, fits)

    insert-All :
        (kind : Str) (p : StoreProvider (Os × N) (Store Gcs Cl Sess Basic Blobs Ftp))
        (providers : Providers json oauth aws az ssh uid)
        → All IsDriver providers
        → IsDriver (kind, p)
        → All IsDriver (Dict.insert kind p providers)
    unfolding Dict.insert
    insert-All kind p [] all is = (is, tt)
    insert-All kind p ((j, q) ∷ providers) all is = elim (Bool-cases (str_eq j kind)) [
      | inl same ↦ rw same (is, all.1)
      | inr other ↦ rw other (all.0, insert-All kind p providers all.1 is)
    ]

    lookup-All :
        (kind : Str) (providers : Providers json oauth aws az ssh uid)
        (p : StoreProvider (Os × N) (Store Gcs Cl Sess Basic Blobs Ftp))
        → All IsDriver providers
        → Dict.lookup kind providers ≡ some p
        → IsDriver (kind, p)
    unfolding Dict.lookup
    lookup-All kind [] p all e = cc
    lookup-All kind ((j, q) ∷ providers) p all e = elim (Bool-cases (str_eq j kind)) [
      | inl same ↦
          let found : some q ≡ some p = rw same at e in
          let here : q ≡ p = cc in
          let name : j ≡ kind = (str_eq_iff j kind).0 same in
          subst (λ k. IsDriver (k, p)) name (subst (λ r. IsDriver (j, r)) here all.0)
      | inr other ↦ lookup-All kind providers p all.1 (rw other at e)
    ]

    register-All :
        (d : Driver) (before more : Providers json oauth aws az ssh uid)
        → All IsDriver before
        → register (store_type d) (reading (provide json oauth aws az ssh uid d)) before ≡ ok more
        → All IsDriver more
    register-All d before more all e =
        subst (λ m. All IsDriver m)
          (register-ok (store_type d) (reading (provide json oauth aws az ssh uid d)) before more e)
          (insert-All (store_type d) (reading (provide json oauth aws az ssh uid d)) before all
            (reading-IsDriver d))

    init-All :
        (drivers : List Driver) (before after : Providers json oauth aws az ssh uid)
        → All IsDriver before
        → init json oauth aws az ssh uid drivers before ≡ ok after
        → All IsDriver after
    unfolding init
    init-All [] before after all e =
        let same : before ≡ after = cc in subst (λ m. All IsDriver m) same all
    init-All (d ∷ drivers) before after all e =
        let (more, e1, e2) =
          chained-ok
            (register (store_type d) (reading (provide json oauth aws az ssh uid d)) before)
            (init json oauth aws az ssh uid drivers) after e in
        init-All drivers more after (register-All d before more all e1) e2

    -- Whichever of the packages are imported, in whatever order: a store that NewStore gives out is of the
    -- type that the configuration names, the configuration changes by its defaults alone, and the
    -- store has its bucket or directory. It had what the store needs: access keys that are there and
    -- that the SDK takes for S3 and Azure, a source of tokens for Google, a method and an address for
    -- SFTP, a directory that is not that of the cached copies for the local store.
    pub new_store-Fits :
        (temp_dir : Str) (drivers : List Driver) (providers : Providers json oauth aws az ssh uid)
        (conf conf' : Config) (w w' : Os × N) (st : Store Gcs Cl Sess Basic Blobs Ftp)
        → init json oauth aws az ssh uid drivers [] ≡ ok providers
        → new_store temp_dir providers (conf, w) ≡ (ok st, (conf', w'))
        → (type_of st ≡ conf.kind)
          × (conf' ≡ with_defaults temp_dir conf)
          × Fits st (with_defaults temp_dir conf)
    unfolding new_store
    new_store-Fits temp_dir drivers providers conf conf' w w' st e went =
        elim (Bool-cases (str_eq conf.kind [])) [
          | inl empty ↦ absurd (ground (arith, went, empty))
          | inr named ↦ elim (Option-cases (Dict.lookup conf.kind providers)) [
            | inl gone ↦ absurd (ground (arith, went, named, gone))
            | inr (p, there) ↦
                let made : p (with_defaults temp_dir conf, w) ≡ (ok st, (conf', w')) =
                  rw (named, there) at went in
                lookup-All conf.kind providers p (init-All drivers [] providers tt e) there
                  (with_defaults temp_dir conf) conf' w w' st made
          ]
        ]
