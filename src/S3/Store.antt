-- ===== src/S3/Store.antt =====
-- The operations of FS, the store of awss3/store.go.
pub mod Paging
use cloudstorage.Base.{
  ℕ, zero, suc, ◌+◌, ◌-◌, ◌*◌, ◌/◌, ◌%◌, ◌^◌, ◌≤◌, ◌<◌, ◌≡◌, refl, sym, ap, ◌∙◌, ◌≢◌, ◌↔◌, ◌⊎◌, inl,
  inr, Bool, true, false, not, ◌&&◌, ◌||◌, Option, none, some, List, [], ◌∷◌, ◌++◌, map, arith,
  Bool-cases, Option-cases, present, Str, String, lit, str_eq, str_eq_iff, str_eq_refl, ltb, leb,
  ◌==◌, ==_iff, if◌then◌else◌, length, take, drop, keep, All, get_elem?, length-append, length-drop,
  drop-nil, Err, object_not_found, object_exists, iterator_done, canceled, deadline_exceeded,
  not_exist, exist, file_closed, bad_handle, eof, io, message, Outcome, ok, fail, Act, return,
  throw, attempt, ◌>>=◌, ◌>>◌, proceed, proceed-eq-ok, Outcome-cases, deferring, quietly,
  describing, described, proceed-ok,
}
use cloudstorage.Base.Int.{ℤ, pos, positive}
use cloudstorage.Base.Dict
use cloudstorage.Base.Dict.{Dict}
use cloudstorage.Strings.{to_lower, replace_byte, trim_prefix}
use cloudstorage.Query.{Query}
use cloudstorage.Iterator.{ObjectsResponse, ObjectPageIterator, new_object_page_iterator}
use cloudstorage.Os.{Os, mkdir_all}
use cloudstorage.Config.{Config}
use cloudstorage.Registry.{max_results}
use cloudstorage.FileHelper.{content_type_key, content_type, cache_path_obj}
use cloudstorage.Cloud.Object.{Object}
use cloudstorage.S3.Client.{Head, Content, ListInput, ListOutput, Client}

-- FS without its client
pub record Fs : Type 0 where
  pub page_size : ℕ
  pub id : Str
  pub bucket : Str
  pub cachepath : Str

-- NewStore, with the id that uuid gives
unfoldable pub new_store : Str → Config → Act Os Fs
new_store uid conf =
    if str_eq conf.tmp_dir []
    then throw (message "unable to create cachepath. config.tmpdir=%q")
    else do
      describing "unable to create cachepath. config.tmpdir=%q err=%v" (mkdir_all conf.tmp_dir)
      return (record {
        page_size = max_results;
        id = replace_byte uid b'-' [];
        bucket = conf.bucket;
        cachepath = conf.tmp_dir;
      })

abbrev pub or_empty : Option Str → Str
or_empty none = []
or_empty (some value) = value

-- The loop of convertMetaData, over the entries of the map in its order
convert_from : List (Str × Option Str) → Dict Str → Dict Str
convert_from [] result = result
convert_from ((key, value) ∷ rest) result =
    convert_from rest (Dict.insert (to_lower key) (or_empty value) result)

unfoldable pub convert_meta_data : List (Str × Option Str) → Dict Str
unfolding convert_from
convert_meta_data entries = convert_from entries []

abbrev or_zero : Option ℕ → ℕ
or_zero none = 0
or_zero (some t) = t

-- The key of the last object; Go panics if there is none.
last_key : List Content → Option Str
last_key [] = none
last_key (o ∷ []) = some o.key
last_key (o ∷ p ∷ contents) = last_key (p ∷ contents)

-- The marker of the next page
next_marker : Option Bool → List Content → Outcome Str
unfolding last_key
next_marker (some true) contents = elim (last_key contents) [
  | none ↦ fail (message "index out of range")
  | some key ↦ ok key
]
next_marker _ contents = ok []

module _ (f : Fs) where
  abbrev object_at : Str → ℕ → Option (Dict Str) → Object
  object_at name updated metadata = record {
    name = name;
    updated = updated;
    metadata = metadata;
    body = none;
    bucket = f.bucket;
    cachedcopy = none;
    readonly = false;
    opened = false;
    cachepath = cache_path_obj f.cachepath name f.id;
  }

  -- newObject
  abbrev pub new_object_listed : Content → Object
  new_object_listed o = object_at o.key (or_zero o.last_modified) none

  -- newObjectFromHead
  unfoldable pub new_object_from_head : Str → Head → Object
  unfolding convert_meta_data
  new_object_from_head name o =
      object_at name (or_zero o.last_modified) (some (convert_meta_data o.metadata))

  -- The page size of a query, or that of the store.
  abbrev item_limit : Query Object → ℕ
  item_limit q = elim (positive q.page_size) [ none ↦ f.page_size | some n ↦ n ]

  abbrev list_input : Query Object → ListInput
  list_input q = record {
    bucket = f.bucket;
    marker = some q.marker;
    max_keys = item_limit q;
    prefix = q.prefix;
    delimiter = none;
  }

  abbrev folders_input : Query Object → ListInput
  folders_input q = record {
    bucket = f.bucket;
    marker = if str_eq q.marker [] then none else some q.marker;
    max_keys = item_limit q;
    prefix = q.prefix;
    delimiter = some (lit "/");
  }

  module _ {C : Type 0} (client : Client C) where
    headed : Str → Outcome Head × C → Outcome Object × C
    unfolding new_object_from_head
    headed name (ok head, c) = (ok (new_object_from_head name head), c)
    headed name (fail not_exist, c) = (fail object_not_found, c)
    headed name (fail e, c) = (fail e, c)

    -- getObjectMeta, and Get
    unfoldable pub get : Str → Act C Object
    unfolding headed
    get name c = headed name (client.head_object f.bucket name c)

    made : (Str → Str) → Str → Outcome Object → Act C Object
    made type_by_extension name (fail object_not_found) =
        return
          (object_at name 0 (some ((content_type_key, content_type type_by_extension name) ∷ [])))
    made type_by_extension name (fail e) = throw e
    made type_by_extension name (ok obj) = throw object_exists

    -- NewObject, on the table of the package `mime`
    unfoldable pub new_object : (Str → Str) → Str → Act C Object
    unfolding made
    new_object type_by_extension name = do r ← attempt (get name); made type_by_extension name r

    missing : Outcome ℕ × C → Outcome ℕ × C
    missing (fail not_exist, c) = (fail object_not_found, c)
    missing x = x

    -- getS3OpenObject
    unfoldable pub get_s3_open_object : Str → Act C ℕ
    unfolding missing
    get_s3_open_object name c = missing (client.get_object f.bucket name c)

    -- NewReader: the body of the object
    unfoldable pub new_reader : Str → Act C ℕ
    unfolding missing
    new_reader name c = missing (client.get_object f.bucket name c)

    -- Delete of the store
    unfoldable pub delete : Str → Act C (Unit {0})
    delete name = client.delete_object f.bucket name

    respond : Outcome ListOutput × C → Outcome (ObjectsResponse Object) × C
    unfolding next_marker
    respond (fail e, c) = (fail e, c)
    respond (ok resp, c) = elim (next_marker resp.is_truncated resp.contents) [
      | fail e ↦ (fail e, c)
      | ok marker ↦
          (ok (record { objects = map new_object_listed resp.contents; next_marker = marker }), c)
    ]

    -- List
    unfoldable pub list : Query Object → Act C (ObjectsResponse Object)
    unfolding respond
    list q c = respond (client.list_objects (list_input q) c)

    -- Objects
    abbrev pub objects : (C → Option Err) → (ℕ → C → C) → Query Object → ObjectPageIterator Object
    objects ctx_err backoff q = new_object_page_iterator list ctx_err backoff q

    -- Folders, with the error of the context if it is done
    unfoldable pub folders : Option Err → Query Object → Act C (List Str)
    folders (some e) q = throw e
    folders none q = do
      resp ← client.list_objects (folders_input q)
      return (map (λ p. trim_prefix p (lit "/")) resp.common_prefixes)
