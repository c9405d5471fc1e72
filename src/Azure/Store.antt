-- ===== src/Azure/Store.antt =====
-- The operations of FS, the store of azure/store.go.
use cloudstorage.Base.{
  ℕ, false, Option, none, some, List, [], ◌∷◌, map, Str, lit, str_eq, if◌then◌else◌, Err,
  object_not_found, object_exists, not_exist, message, Outcome, ok, fail, Act, return, throw,
  attempt, ◌>>=◌, ◌>>◌, describing,
}
use cloudstorage.Base.Int.{positive}
use cloudstorage.Base.Dict.{Dict}
use cloudstorage.Strings.{replace_byte}
use cloudstorage.Query.{Query}
use cloudstorage.Iterator.{ObjectsResponse, ObjectPageIterator, new_object_page_iterator}
use cloudstorage.Os.{Os, mkdir_all}
use cloudstorage.Config.{Config}
use cloudstorage.FileHelper.{content_type_key, content_type, cache_path_obj}
use cloudstorage.Cloud.Object.{Object}
use cloudstorage.Azure.Client.{ListInput, ListOutput, Container}

-- FS without its client
pub record Fs : Type 0 where
  pub page_size : ℕ
  pub id : Str
  pub bucket : Str
  pub cachepath : Str

-- NewStore, with the id that uuid gives
unfoldable pub new_store : Str → Config → Act Os Fs
new_store uid conf =
    if str_eq conf.tmp_dir []
    then throw (message "unable to create cachepath. config.tmpdir=%q")
    else do
      describing "unable to create cachepath. config.tmpdir=%q err=%v" (mkdir_all conf.tmp_dir)
      return (record {
        page_size = 10000;
        id = replace_byte uid b'-' [];
        bucket = conf.bucket;
        cachepath = conf.tmp_dir;
      })

module _ (f : Fs) where
  abbrev object_at : Str → ℕ → Option (Dict Str) → Str → Object
  object_at name updated metadata bucket = record {
    name = name;
    updated = updated;
    metadata = metadata;
    body = none;
    bucket = bucket;
    cachedcopy = none;
    readonly = false;
    opened = false;
    cachepath = cache_path_obj f.cachepath name f.id;
  }

  -- newObject
  abbrev pub new_object_listed : Str → Object
  new_object_listed name = object_at name 0 none f.bucket

  -- The page size of a query, or that of the store.
  abbrev item_limit : Query Object → ℕ
  item_limit q = elim (positive q.page_size) [ none ↦ f.page_size | some n ↦ n ]

  abbrev list_input : Query Object → ListInput
  list_input q = record {
    prefix = q.prefix;
    max_results = item_limit q;
    marker = q.marker;
    delimiter = [];
  }

  abbrev folders_input : Query Object → ListInput
  folders_input q = record {
    prefix = q.prefix;
    max_results = item_limit q;
    marker = [];
    delimiter = lit "/";
  }

  module _ {C : Type 0} (container : Container C) where
    loaded : Str → Outcome ℕ × C → Outcome Object × C
    loaded name (ok updated, c) = (ok (object_at name updated none []), c)
    loaded name (fail not_exist, c) = (fail object_not_found, c)
    loaded name (fail e, c) = (fail e, c)

    -- getObject, and Get
    unfoldable pub get : Str → Act C Object
    unfolding loaded
    get name c = loaded name (container.last_modified name c)

    made : (Str → Str) → Str → Outcome Object → Act C Object
    made type_by_extension name (fail object_not_found) = return (
        object_at name 0 (some ((content_type_key, content_type type_by_extension name) ∷ []))
          f.bucket)
    made type_by_extension name (fail e) = throw e
    made type_by_extension name (ok obj) = throw object_exists

    -- NewObject, on the table of the package `mime`
    unfoldable pub new_object : (Str → Str) → Str → Act C Object
    unfolding made
    new_object type_by_extension name = do r ← attempt (get name); made type_by_extension name r

    missing : {A : Type 0} → Outcome A × C → Outcome A × C
    missing (fail not_exist, c) = (fail object_not_found, c)
    missing x = x

    -- getOpenObject
    unfoldable pub get_open_object : Str → Act C ℕ
    unfolding missing
    get_open_object name c = missing (container.get_blob name c)

    -- NewReader: the body of the object
    unfoldable pub new_reader : Str → Act C ℕ
    unfolding missing
    new_reader name c = missing (container.get_blob name c)

    -- Delete of the store
    unfoldable pub delete : Str → Act C (Unit {0})
    unfolding missing
    delete name c = missing (container.delete_blob name c)

    respond : Outcome ListOutput × C → Outcome (ObjectsResponse Object) × C
    respond (fail e, c) = (fail e, c)
    respond (ok resp, c) = (
      ok (record { objects = map new_object_listed resp.blobs; next_marker = resp.next_marker }),
      c,
    )

    -- List
    unfoldable pub list : Query Object → Act C (ObjectsResponse Object)
    unfolding respond
    list q c = respond (container.list_blobs (list_input q) c)

    -- Objects
    abbrev pub objects : (C → Option Err) → (ℕ → C → C) → Query Object → ObjectPageIterator Object
    objects ctx_err backoff q = new_object_page_iterator list ctx_err backoff q

    -- Folders, with the error of the context if it is done
    unfoldable pub folders : Option Err → Query Object → Act C (List Str)
    folders (some e) q = throw e
    folders none q = do resp ← container.list_blobs (folders_input q); return resp.blob_prefixes
