-- ===== src/Tests/Values.antt =====
-- The etags, queries, settings, providers, metadata and addresses of the library's tests.
use cloudstorage.Base.{
  ℕ, suc, ◌+◌, ◌≡◌, refl, ◌≢◌, ◌↔◌, not, ◌&&◌, none, some, List, [], ◌∷◌, ◌++◌, arith, Str, lit,
  str_eq, if◌then◌else◌, io, message, ok, fail,
}
use cloudstorage.Base.Int.{ℤ, pos, positive}
use cloudstorage.Base.Dict
use cloudstorage.Base.Dict.{Dict}
use cloudstorage.Strings.{has_prefix}
use cloudstorage.Strings.Trim.{in_cutset}
use cloudstorage.Etag.{clean_etag, etag_pass}
use cloudstorage.Etag.Laws.{clean_etag_total, clean_etag-spelled}
use cloudstorage.Query.{Query, Filter, new_query, add_filter, apply_filters, sorted}
use cloudstorage.Query.Sorting.{IsSorted, named, apply_filters-sorted}
use cloudstorage.Config.{JwtConf, Config, validate}
use cloudstorage.Config.Keys.{pem, validate_idem, validate-pem}
use cloudstorage.Base64.{decode}
use cloudstorage.Registry.{StoreProvider, register, new_store, with_defaults}
use cloudstorage.Registry.Laws.{new_store-register}
use cloudstorage.FileHelper.{content_type_key, content_type, ensure_context_type}
use cloudstorage.FileHelper.Laws.{ensure_context_type_lem}
use cloudstorage.Sftp.Addr.{sftp_addr, decimal, schemed_ported, sftp_addr-spelled}

abbrev weak_tag : Str
weak_tag = lit "W/\"abc\""

clean_etag_total_example : (r : Str) × (clean_etag weak_tag ≡ some r) × (etag_pass r ≡ none)
clean_etag_total_example = clean_etag_total weak_tag

clean_etag-spelled_example :
    (clean_etag (lit "abc") ≡ some (lit "abc"))
    × (clean_etag (34 ∷ (lit "abc" ++ 34 ∷ [])) ≡ some (lit "abc"))
    × (clean_etag (lit "W/" ++ 34 ∷ (lit "abc" ++ 34 ∷ [])) ≡ some (lit "abc"))
clean_etag-spelled_example = clean_etag-spelled (lit "abc") (
  unfold in_cutset in (refl, (refl, (refl, tt))),
  unfold in_cutset in (refl, (refl, (refl, tt))),
  unfold has_prefix in refl,
)

-- Objects that are their names.
abbrev self : Str → Str
self n = n

abbrev tail_of : Filter Str
tail_of [] = []
tail_of (n ∷ ns) = ns

abbrev tails : Query Str
tails = add_filter (new_query (lit "list-test/")) tail_of

abbrev unsorted : List Str
unsorted = lit "x" ∷ lit "b" ∷ lit "a" ∷ lit "b" ∷ []

apply_filters-sorted_example :
    IsSorted self (apply_filters (sorted self tails) unsorted)
    × ((n : Str)
        → named self n (apply_filters (sorted self tails) unsorted)
          ≡ named self n (apply_filters tails unsorted))
apply_filters-sorted_example = apply_filters-sorted self tails unsorted

abbrev conf_of : Str → JwtConf
conf_of key = record {
  private_key_deprecated = [];
  key_type_deprecated = lit "service_account";
  project_id = lit "p";
  private_key_id = [];
  private_key = key;
  client_email = [];
  client_id = [];
  kind = [];
  scopes = [];
}

abbrev keyed : JwtConf
keyed = conf_of (pem (lit "---BEGIN" ∷ []) (lit "aGVsbG8=") (lit "---END" ∷ []))

validate_idem_example : validate (validate keyed).1 ≡ validate keyed
validate_idem_example = validate_idem keyed

validate-pem_example :
    ((validate keyed).1.private_key ≡ lit "aGVsbG8=")
    × (((validate keyed).0 ≡ ok tt)
        ↔ ((lit "aGVsbG8=" ≢ []) × ((key : List ℕ) × (decode (lit "aGVsbG8=") ≡ some key))))
validate-pem_example =
    validate-pem keyed (lit "---BEGIN" ∷ []) (lit "aGVsbG8=") (lit "---END" ∷ []) (ground arith)
      (unfold has_prefix in refl, tt) (unfold has_prefix in refl) refl refl

-- A provider that makes its store from the page size, and counts the stores it made.
abbrev counting : StoreProvider ℕ ℤ
counting (conf, w) = (ok conf.page_size, (conf, w + 1))

abbrev refusing : StoreProvider ℕ ℤ
refusing s = (fail io, s)

abbrev provided : Dict (StoreProvider ℕ ℤ)
provided = (lit "gcs", refusing) ∷ []

registered :
    register (lit "localfs") counting provided ≡ ok (Dict.insert (lit "localfs") counting provided)
unfolding register Dict.lookup str_eq
registered = refl

new_store-register_example :
    ((conf : Config) (w : ℕ)
      → new_store (lit "/tmp") (Dict.insert (lit "localfs") counting provided) (conf, w) ≡ (
          if not (str_eq conf.kind []) && str_eq conf.kind (lit "localfs")
          then counting (with_defaults (lit "/tmp") conf, w)
          else new_store (lit "/tmp") provided (conf, w)))
    × (register (lit "localfs") refusing (Dict.insert (lit "localfs") counting provided)
        ≡ fail (message "Cannot provide duplicate store %q"))
new_store-register_example =
    new_store-register (lit "/tmp") (lit "localfs") counting refusing provided
      (Dict.insert (lit "localfs") counting provided) registered

-- mime.TypeByExtension of a system that knows one extension.
abbrev csv_only : Str → Str
csv_only e = if str_eq e (lit ".csv") then lit "text/csv" else []

abbrev owned : Dict Str
owned = (lit "owner", lit "me") ∷ []

ensure_context_type_example :
    let (ctype, md') = ensure_context_type csv_only (lit "a/test.csv") owned in
    (Dict.lookup content_type_key md' ≡ some ctype)
    × ((c : Str) → Dict.lookup content_type_key owned ≡ some c → ctype ≡ c)
    × (Dict.lookup content_type_key owned ≡ none → ctype ≡ content_type csv_only (lit "a/test.csv"))
    × ((k : Str) → k ≢ content_type_key → Dict.lookup k md' ≡ Dict.lookup k owned)
    × ((p : Str) → ensure_context_type csv_only p md' ≡ (ctype, md'))
ensure_context_type_example = ensure_context_type_lem csv_only (lit "a/test.csv") owned

sftp_addr-spelled_example :
    ((port : ℤ)
      → lit "host" ≡ []
      → sftp_addr (lit "sftp://host:22") port ≡ fail (message "host name not recognized %s"))
    × ((p : ℕ)
        → lit "host" ≢ []
        → sftp_addr (lit "sftp://host:22") (pos (suc p))
          ≡ ok (lit "host" ++ b':' ∷ decimal (suc p)))
    × ((port : ℤ)
        → lit "host" ≢ []
        → positive port ≡ none
        → sftp_addr (lit "sftp://host:22") port
          ≡ fail (message "port number must be greater than 0"))
sftp_addr-spelled_example =
    sftp_addr-spelled (lit "host") (lit "sftp://host:22") (ground arith)
      (schemed_ported (lit "sftp") (lit "22") (ground arith))
