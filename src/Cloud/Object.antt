-- ===== src/Cloud/Object.antt =====
-- The type object of awss3/store.go and azure/store.go, and its methods on a state.
use cloudstorage.Base.{ℕ, Bool, Option, Str, Outcome, ok, Act}
use cloudstorage.Base.Dict.{Dict}
use cloudstorage.Os.{Os}

-- `body` is what a download reads from, once it was asked for: the field o of awss3/store.go, and the
-- field rc of azure/store.go.
pub record Object : Type 0 where
  pub name : Str
  pub updated : ℕ
  pub metadata : Option (Dict Str)
  pub body : Option ℕ
  pub bucket : Str
  pub cachedcopy : Option ℕ
  pub readonly : Bool
  pub opened : Bool
  pub cachepath : Str

-- A method acts on the object, on the service and on the file system.
abbrev pub State : Type 0 → Type 0
State C = Object × (C × Os)

module _ {C : Type 0} where
  abbrev pub on_os {ℓ} : {A : Type ℓ} → (Object → Act Os A) → State C → Outcome A × State C
  on_os m (o, (c, os)) = let (r, os') = m o os in (r, (o, (c, os')))

  abbrev pub on_service {ℓ} : {A : Type ℓ} → (Object → Act C A) → State C → Outcome A × State C
  on_service m (o, (c, os)) = let (r, c') = m o c in (r, (o, (c', os)))

-- A sleep of Backoff; the parameter is the service behind it.
abbrev pub sleep : {C : Type 0} → (ℕ → C → C) → ℕ → Act (State C) (Unit {0})
sleep backoff try (o, (c, os)) = (ok tt, (o, (backoff try c, os)))
