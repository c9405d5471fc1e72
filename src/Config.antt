-- ===== src/Config.antt =====
-- The settings of a store, and JwtConf with its validation (store.go).
pub mod Keys
use cloudstorage.Base.{
  ℕ, zero, suc, ◌+◌, ◌-◌, ◌*◌, ◌/◌, ◌%◌, ◌^◌, ◌≤◌, ◌<◌, ◌≡◌, refl, sym, ap, ◌∙◌, ◌≢◌, ◌↔◌, ◌⊎◌, inl,
  inr, Bool, true, false, not, ◌&&◌, ◌||◌, Option, none, some, List, [], ◌∷◌, ◌++◌, map, arith,
  Bool-cases, Option-cases, present, Str, String, lit, str_eq, str_eq_iff, str_eq_refl, ltb, leb,
  ◌==◌, ==_iff, if◌then◌else◌, length, take, drop, keep, All, get_elem?, length-append, length-drop,
  Err, object_not_found, object_exists, iterator_done, canceled, deadline_exceeded, not_exist,
  exist, file_closed, bad_handle, message, Outcome, ok, fail, Act, return, throw, attempt, ◌>>=◌,
  ◌>>◌,
}
use cloudstorage.Base.Int.{ℤ, pos}
use cloudstorage.Base.Dict.{Dict}
use cloudstorage.Strings.{has_prefix, split}
use cloudstorage.Base64.{decode}

-- JwtConf
pub record JwtConf : Type 0 where
  pub private_key_deprecated : Str
  pub key_type_deprecated : Str
  pub project_id : Str
  pub private_key_id : Str
  pub private_key : Str
  pub client_email : Str
  pub client_id : Str
  pub kind : Str
  pub scopes : List Str

-- What the package gou reads from the settings under a key: "", 0 or false where there is nothing.
pub record JsonHelper : Type 0 where
  pub string : Dict Str → Str → Str
  pub int : Dict Str → Str → ℤ
  pub bool : Dict Str → Str → Bool

-- Config; `kind` is the field Type, and each of the settings is a JSON text.
pub record Config : Type 0 where
  pub kind : Str
  pub auth_method : Str
  pub project : Str
  pub region : Str
  pub bucket : Str
  pub page_size : ℤ
  pub jwt_conf : Option JwtConf
  pub jwt_file : Str
  pub base_url : Str
  pub scope : Str
  pub local_fs : Str
  pub tmp_dir : Str
  pub settings : Dict Str
  pub log_prefix : Str

abbrev pub newline : ℕ
newline = 10

-- The first line that does not begin with three dashes, if there is one.
first_body : List Str → Option Str
first_body [] = none
first_body (part ∷ parts) =
    let rest = first_body parts in if has_prefix part (lit "---") then rest else some part

fixed_key : List Str → Str → Str
fixed_key (p ∷ q ∷ parts) key = elim (first_body (p ∷ q ∷ parts)) [ none ↦ key | some part ↦ part ]
fixed_key _ key = key

unfoldable pub fix_key : JwtConf → JwtConf
unfolding first_body fixed_key
fix_key j = record j { private_key = fixed_key (split j.private_key newline) j.private_key }

-- KeyBytes
unfoldable pub key_bytes : JwtConf → Outcome (List ℕ)
key_bytes j =
    if str_eq j.private_key []
    then fail (message "invalid config, private key empty")
    else elim (decode j.private_key) [
      | none ↦ fail (message "illegal base64 data")
      | some key ↦ ok key
    ]

take_deprecated_key : JwtConf → JwtConf
take_deprecated_key j =
    if str_eq j.private_key_deprecated []
    then j
    else record j { private_key = j.private_key_deprecated; private_key_deprecated = [] }

take_deprecated_type : JwtConf → JwtConf
take_deprecated_type j =
    if str_eq j.key_type_deprecated []
    then j
    else record j { kind = j.key_type_deprecated; key_type_deprecated = [] }

checked : Outcome (List ℕ) → Outcome (Unit {0})
checked (ok key) = ok tt
checked (fail e) =
    fail (message "Invalid JwtConf.PrivateKeyBase64  (error trying to decode base64 err: ")

-- Validate
unfoldable pub validate : Act JwtConf (Unit {0})
unfolding take_deprecated_key take_deprecated_type checked
validate j =
    let j' = take_deprecated_type (fix_key (take_deprecated_key j)) in (checked (key_bytes j'), j')
