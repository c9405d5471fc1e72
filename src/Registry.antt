-- ===== src/Registry.antt =====
-- registry.go and NewStore of store.go: the map of store providers. `S` is what a provider makes,
-- and `W` the world it acts on. The lock makes each access one step.
pub mod Laws
use cloudstorage.Base.{
  ℕ, zero, suc, ◌+◌, ◌-◌, ◌*◌, ◌/◌, ◌%◌, ◌^◌, ◌≤◌, ◌<◌, ◌≡◌, refl, sym, ap, ◌∙◌, ◌≢◌, ◌↔◌, ◌⊎◌, inl,
  inr, Bool, true, false, not, ◌&&◌, ◌||◌, Option, none, some, List, [], ◌∷◌, ◌++◌, map, arith,
  Bool-cases, Option-cases, present, Str, String, lit, str_eq, str_eq_iff, str_eq_refl, ltb, leb,
  ◌==◌, ==_iff, if◌then◌else◌, length, take, drop, keep, All, get_elem?, length-append, length-drop,
  Err, object_not_found, object_exists, iterator_done, canceled, deadline_exceeded, not_exist,
  exist, file_closed, bad_handle, message, Outcome, ok, fail, Act, return, throw, attempt, ◌>>=◌,
  ◌>>◌,
}
use cloudstorage.Base.Int.{ℤ, pos}
use cloudstorage.Base.Dict
use cloudstorage.Base.Dict.{Dict}
use cloudstorage.Config.{Config}

-- A provider gets a pointer to the configuration, which it may change.
abbrev pub StoreProvider : Type 0 → Type 0 → Type 0
StoreProvider W S = Act (Config × W) S

-- A provider that reads the configuration alone.
abbrev pub reading : {W S : Type 0} → (Config → Act W S) → StoreProvider W S
reading make (conf, w) = let (r, w') = make conf w in (r, (conf, w'))

abbrev pub max_results : ℕ
max_results = 3000

-- The page size that NewStore takes where it is 0, and the directory where it is "".
abbrev pub with_defaults : Str → Config → Config
with_defaults temp_dir conf =
    let sized : Config = elim conf.page_size [
      | pos n ↦ if n == 0 then record conf { page_size = pos max_results } else conf
      | _ ↦ conf
    ] in
    if str_eq sized.tmp_dir [] then record sized { tmp_dir = temp_dir } else sized

module _ {W S : Type 0} where
  -- Register; the panic is an error.
  unfoldable pub register :
      Str → StoreProvider W S → Dict (StoreProvider W S) → Outcome (Dict (StoreProvider W S))
  register store_type provider providers = elim (Dict.lookup store_type providers) [
    | some p ↦ fail (message "Cannot provide duplicate store %q")
    | none ↦ ok (Dict.insert store_type provider providers)
  ]

  -- NewStore, on the temporary directory of the system
  unfoldable pub new_store : Str → Dict (StoreProvider W S) → Act (Config × W) S
  new_store temp_dir providers (conf, w) =
      if str_eq conf.kind []
      then (fail (message "Type is required on Config"), (conf, w))
      else elim (Dict.lookup conf.kind providers) [
        | none ↦ (fail (message "config.Type=%q was not found"), (conf, w))
        | some st ↦ st (with_defaults temp_dir conf, w)
      ]
