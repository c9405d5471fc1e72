-- ===== src/Google/Store.antt =====
-- The operations of the store of google/store.go, its iterator, and storeutils/get.go and utils.go.
pub mod Listing
use cloudstorage.Base.{
  ℕ, zero, suc, ◌-◌, Bool, false, Option, none, some, List, [], ◌∷◌, ◌++◌, Str, str_eq,
  if◌then◌else◌, Err, object_not_found, object_exists, iterator_done, canceled, deadline_exceeded,
  not_exist, Outcome, ok, fail, Act, return, throw, attempt, ◌>>=◌, ◌>>◌, describing,
}
use cloudstorage.Base.Dict.{Dict}
use cloudstorage.Strings.{replace_byte}
use cloudstorage.Strings.Paths.{dir}
use cloudstorage.Query.{Query}
use cloudstorage.Iterator.{ObjectsResponse, object_response_from_iter}
use cloudstorage.Os.{Os, mkdir_all}
use cloudstorage.FileHelper.{content_type_key, content_type, ensure_context_type, cache_path_obj}
use cloudstorage.LocalFs.Object.{AccessLevel}
use cloudstorage.Google.Client.{Attrs, Client}
use cloudstorage.Google.Object.{Object}
use cloudstorage.Google.Opening.{open_object}

-- GcsFS without its client
pub record GcsFs : Type 0 where
  pub bucket : Str
  pub cachepath : Str
  pub page_size : ℕ
  pub id : Str

-- NewGCSStore, with the id that uuid gives
unfoldable pub new_gcs_store : Str → Str → Str → ℕ → Act Os GcsFs
new_gcs_store uid bucket cachepath pagesize = do
  describing "unable to create path." (mkdir_all (dir cachepath))
  return (record {
    bucket = bucket;
    cachepath = cachepath;
    page_size = pagesize;
    id = replace_byte uid b'-' [];
  })

-- newObject
unfoldable pub new_object_from : GcsFs → Attrs → Object
new_object_from g a = record {
  name = a.name;
  updated = a.updated;
  metadata = a.metadata;
  google_object = none;
  bucket = g.bucket;
  cachedcopy = none;
  readonly = false;
  opened = false;
  cachepath = cache_path_obj g.cachepath a.name g.id;
}

-- An error that says that the object doesn't exist becomes the library's own.
missing : {A C : Type 0} → Outcome A × C → Outcome A × C
missing (fail not_exist, c) = (fail object_not_found, c)
missing x = x

-- The context of a call: its error on a state of the service, once it is done.
module _ {C : Type 0} (g : GcsFs) (client : Client C) (ctx_err : C → Option Err) where
  found : Outcome Attrs × C → Outcome Object × C
  unfolding new_object_from
  found (ok a, c) = (ok (new_object_from g a), c)
  found (fail not_exist, c) = (fail object_not_found, c)
  found (fail e, c) = (fail e, c)

  -- Get
  unfoldable pub get : Str → Act C Object
  unfolding found
  get objectpath c = found (client.attrs g.bucket objectpath c)

  made : Str → Str → Outcome Object → Act C Object
  made name ctype (fail object_not_found) = return (record {
    name = name;
    updated = 0;
    metadata = some ((content_type_key, ctype) ∷ []);
    google_object = none;
    bucket = g.bucket;
    cachedcopy = none;
    readonly = false;
    opened = false;
    cachepath = cache_path_obj g.cachepath name g.id;
  })
  made name ctype (fail e) = throw e
  made name ctype (ok obj) = throw object_exists

  -- NewObject, on the table of the package `mime`
  unfoldable pub new_object : (Str → Str) → Str → Act C Object
  unfolding made
  new_object type_by_extension name = do
    r ← attempt (get name)
    made name (content_type type_by_extension name) r

  -- Delete of the store
  unfoldable pub delete : Str → Act C (Unit {0})
  delete name = client.delete_object g.bucket name

  -- NewReader
  unfoldable pub new_reader : Str → Act C (Str × Option Err)
  unfolding missing
  new_reader name c = missing (client.open_body g.bucket name c)

  typed : (Str → Str) → Str → Option (Dict Str) → Option (Dict Str × Str)
  typed type_by_extension name none = none
  typed type_by_extension name (some md) =
      let (ctype, md') = ensure_context_type type_by_extension name md in some (md', ctype)

  -- NewWriter; IfNotExists is in the options.
  unfoldable pub new_writer : (Str → Str) → Str → Option (Dict Str) → Bool → Act C ℕ
  unfolding typed
  new_writer type_by_extension name metadata if_not_exists c =
      let (wc, c') =
        client.start_writer g.bucket name (typed type_by_extension name metadata) if_not_exists c in
      (ok wc, c')

  -- Copy and Move of two objects of this kind of store
  unfoldable pub copy_objects : Object → Object → Act C (Unit {0})
  copy_objects src des = client.copy_object src.bucket src.name des.bucket des.name

  unfoldable pub move_objects : Object → Object → Act C (Unit {0})
  move_objects src des = do
    client.copy_object src.bucket src.name des.bucket des.name
    client.delete_object src.bucket src.name

  -- What Next of the iterator does with what the service's iterator gave: `retries` of five are left.
  stepped : (ℕ → C → C) → Act C Object → ℕ → Outcome Attrs × C → Outcome Object × C
  stepped backoff again retries (ok a, c) = (ok (new_object_from g a), c)
  stepped backoff again retries (fail iterator_done, c) = (fail iterator_done, c)
  stepped backoff again retries (fail canceled, c) = (fail canceled, c)
  stepped backoff again retries (fail deadline_exceeded, c) = (fail deadline_exceeded, c)
  stepped backoff again zero (fail e, c) = (fail e, c)
  stepped backoff again (suc retries) (fail e, c) = again (backoff (4 - retries) c)

  unless_done : {A : Type 0} → Act C A → Act C A
  unless_done m c = elim (ctx_err c) [ some e ↦ (fail e, c) | none ↦ m c ]

  next_loop : (ℕ → C → C) → ℕ → ℕ → Act C Object
  unfolding stepped unless_done
  next_loop backoff zero iter =
      unless_done λ c. stepped backoff (throw canceled) zero (client.next_attrs iter c)
  next_loop backoff (suc retries) iter =
      unless_done λ c.
        stepped backoff (next_loop backoff retries iter) (suc retries) (client.next_attrs iter c)

  -- Next: at most six passes
  unfoldable pub next_object : (ℕ → C → C) → ℕ → Act C Object
  unfolding next_loop
  next_object backoff iter = next_loop backoff 5 iter

  -- Objects: the number of an iterator of the service
  unfoldable pub objects : Query Object → C → ℕ × C
  objects q c = client.list_objects g.bucket [] q.prefix c

  -- List, on fuel for the loop of ObjectsAll
  unfoldable pub list :
      (ℕ → C → C) → ℕ → Query Object → C → Option (Outcome (ObjectsResponse Object) × C)
  unfolding next_object objects
  list backoff fuel q c =
      let (iter, c') = objects q c in object_response_from_iter (next_object backoff iter) fuel c'

  with_prefix : List Str → Attrs → List Str
  with_prefix folders a = if str_eq a.prefix [] then folders else folders ++ a.prefix ∷ []

  -- A pass of the loop of Folders: any other error is tried again at once.
  folder_step :
      (List Str → C → Option (Outcome (List Str) × C))
      → List Str
      → Outcome Attrs × C
      → Option (Outcome (List Str) × C)
  unfolding with_prefix
  folder_step again folders (ok a, c) = again (with_prefix folders a) c
  folder_step again folders (fail iterator_done, c) = some (ok folders, c)
  folder_step again folders (fail canceled, c) = some (fail canceled, c)
  folder_step again folders (fail deadline_exceeded, c) = some (fail deadline_exceeded, c)
  folder_step again folders (fail e, c) = again folders c

  folder_loop : ℕ → ℕ → List Str → C → Option (Outcome (List Str) × C)
  unfolding folder_step
  folder_loop zero iter folders c = none
  folder_loop (suc fuel) iter folders c = elim (ctx_err c) [
    | some e ↦ some (fail e, c)
    | none ↦ folder_step (folder_loop fuel iter) folders (client.next_attrs iter c)
  ]

  -- Folders, on fuel
  unfoldable pub folders : ℕ → Query Object → C → Option (Outcome (List Str) × C)
  unfolding folder_loop
  folders fuel q c =
      let (iter, c') = client.list_objects g.bucket q.delimiter q.prefix c in
      folder_loop fuel iter [] c'

-- What ioutil.ReadAll makes of what the reader gives.
all_read : {C : Type 0} → Outcome (Str × Option Err) × C → Outcome Str × C
all_read (ok (bytes, none), c) = (ok bytes, c)
all_read (ok (bytes, some e), c) = (fail e, c)
all_read (fail e, c) = (fail e, c)

-- GetObject: all bytes of an object
unfoldable pub get_object_bytes : {C : Type 0} → Client C → Str → Str → Act C Str
unfolding missing all_read
get_object_bytes client bucket name c = all_read (missing (client.open_body bucket name c))

-- GetAndOpen of a store's object
unfoldable pub get_and_open :
    {C : Type 0} → ℕ → Client C → (ℕ → C → C) → GcsFs → Str → AccessLevel → Act (C × Os) Object
unfolding get
get_and_open retries client backoff g name level (c, os) =
    let (r, c') = get g client (λ _. none) name c in
    elim r [
      | fail e ↦ (fail e, (c', os))
      | ok o ↦
          let (x, (o', w)) = open_object retries client backoff level (o, (c', os)) in
          (elim x [ fail e ↦ fail e | ok h ↦ ok o' ], w)
    ]
