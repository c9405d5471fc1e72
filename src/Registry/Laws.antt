-- ===== src/Registry/Laws.antt =====
-- What a registration changes for NewStore.
use cloudstorage.Base.{
  ◌≡◌, refl, not, ◌&&◌, [], arith, Str, str_eq, str_eq_iff, str_eq_refl, if◌then◌else◌, message, ok,
  fail,
}
use mathlib.Core.Path.{subst}
use cloudstorage.Base.Dict
use cloudstorage.Base.Dict.{Dict}
use cloudstorage.Config.{Config}
use cloudstorage.Registry.{StoreProvider, register, with_defaults, new_store}

module _ {W S : Type 0} where
  pub register-ok :
      (kind : Str) (p : StoreProvider W S) (providers after : Dict (StoreProvider W S))
      → register kind p providers ≡ ok after
      → Dict.insert kind p providers ≡ after
  unfolding register
  register-ok kind p providers after h = ground arith

  inserted :
      (temp_dir kind : Str) (p : StoreProvider W S) (providers : Dict (StoreProvider W S))
      (conf : Config) (w : W)
      → new_store temp_dir (Dict.insert kind p providers) (conf, w) ≡ (
          if not (str_eq conf.kind []) && str_eq conf.kind kind
          then p (with_defaults temp_dir conf, w)
          else new_store temp_dir providers (conf, w))
  unfolding new_store
  inserted temp_dir kind p providers conf w =
      rw (Dict.lookup-insert, new_store)
        (ground (arith, str_eq_iff conf.kind kind, str_eq_iff kind conf.kind))

  -- A registration that does not panic changes NewStore for configurations of its own type alone:
  -- those go to the provider, with the defaults filled in. A second one of the same type panics.
  pub new_store-register :
      (temp_dir kind : Str) (p p' : StoreProvider W S) (providers after : Dict (StoreProvider W S))
      → register kind p providers ≡ ok after
      → ((conf : Config) (w : W)
          → new_store temp_dir after (conf, w) ≡ (
              if not (str_eq conf.kind []) && str_eq conf.kind kind
              then p (with_defaults temp_dir conf, w)
              else new_store temp_dir providers (conf, w)))
        × (register kind p' after ≡ fail (message "Cannot provide duplicate store %q"))
  new_store-register temp_dir kind p p' providers after h =
      subst
        (λ (made : Dict (StoreProvider W S)).
          ((conf : Config) (w : W)
            → new_store temp_dir made (conf, w) ≡ (
                if not (str_eq conf.kind []) && str_eq conf.kind kind
                then p (with_defaults temp_dir conf, w)
                else new_store temp_dir providers (conf, w)))
          × (register kind p' made ≡ fail (message "Cannot provide duplicate store %q")))
        (register-ok kind p providers after h)
        (
          inserted temp_dir kind p providers,
          unfold register in rw (Dict.lookup-insert, str_eq_refl, register) refl,
        )
