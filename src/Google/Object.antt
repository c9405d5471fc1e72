-- ===== src/Google/Object.antt =====
-- The object of google/store.go: a file of a bucket and its cached copy. A method acts on the
-- object, on the service and on the file system.
use cloudstorage.Base.{ℕ, Bool, Option, Str, Outcome, ok, Act}
use cloudstorage.Base.Dict.{Dict}
use cloudstorage.Os.{Os}
use cloudstorage.Google.Client.{Attrs}

pub record Object : Type 0 where
  pub name : Str
  pub updated : ℕ
  pub metadata : Option (Dict Str)
  pub google_object : Option Attrs
  pub bucket : Str
  pub cachedcopy : Option ℕ
  pub readonly : Bool
  pub opened : Bool
  pub cachepath : Str

abbrev pub State : Type 0 → Type 0
State C = Object × (C × Os)

module _ {C : Type 0} where
  abbrev pub on_os {ℓ} : {A : Type ℓ} → (Object → Act Os A) → State C → Outcome A × State C
  on_os m (o, (c, os)) = let (r, os') = m o os in (r, (o, (c, os')))

  abbrev pub on_service {ℓ} : {A : Type ℓ} → (Object → Act C A) → State C → Outcome A × State C
  on_service m (o, (c, os)) = let (r, c') = m o c in (r, (o, (c', os)))

-- A sleep of Backoff; the parameter is the service behind it.
abbrev pub sleep : {C : Type 0} → (ℕ → C → C) → ℕ → Act (State C) (Unit {0})
sleep backoff try (o, (c, os)) = (ok tt, (o, (backoff try c, os)))
