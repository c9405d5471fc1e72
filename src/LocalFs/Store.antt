-- ===== src/LocalFs/Store.antt =====
-- The store of localfs/store.go: a directory of the file system. The parameters are what
-- encoding/json does with metadata, and the order in which Go goes through a map of objects.
pub mod Roundtrip
use cloudstorage.Base.{
  ℕ, ◌+◌, Bool, true, false, Option, none, some, List, [], ◌∷◌, ◌++◌, map, Str, lit, str_eq,
  if◌then◌else◌, get_elem?, Err, object_not_found, object_exists, iterator_done, message, Outcome,
  ok, fail, Act, return, throw, attempt, ◌>>=◌, ◌>>◌, quietly, describing,
}
use cloudstorage.Base.Dict
use cloudstorage.Base.Dict.{Dict}
use cloudstorage.Strings.{replace_byte, replace_first, trim_prefix}
use cloudstorage.Strings.Paths.{path_join, ext, base}
use cloudstorage.Query.{Query, apply_filters}
use cloudstorage.Iterator.{ObjectsResponse}
use cloudstorage.Os.{
  Os, Entry, directory, file, truncating, mkdir_all, stat, exists, open_file, remove, read_file,
}
use cloudstorage.Os.Walk.{walk, read_dir}
use cloudstorage.Csbufio.{BufWriteCloser, new_writer, open_reader}
use cloudstorage.FileHelper.{cache_path_obj, ensure_dir}
use cloudstorage.Config.{Config}
use cloudstorage.LocalFs.Object.{Object, writemeta, kept_metadata}

pub record LocalStore : Type 0 where
  pub storepath : Str
  pub path_cleaned : Str
  pub cachepath : Str
  pub id : Str

-- NewLocalStore, with the id that uuid gives
unfoldable pub new_local_store : Str → Str → Str → Act Os LocalStore
new_local_store uid storepath cachepath =
    if str_eq storepath []
    then throw (message "storepath=%q cannot be empty")
    else if str_eq storepath cachepath
    then throw (message "storepath=%q cannot be the same as cachepath=%q")
    else do
      describing "unable to create path." (mkdir_all storepath)
      describing "unable to create path." (mkdir_all cachepath)
      return (record {
        storepath = storepath;
        path_cleaned = trim_prefix storepath (lit "./");
        cachepath = cachepath;
        id = replace_byte uid b'-' [];
      })

abbrev pub store_type : Str
store_type = lit "localfs"

-- localProvider
unfoldable pub provide : Str → Config → Act Os LocalStore
provide uid conf = new_local_store uid conf.local_fs conf.tmp_dir

module _ (l : LocalStore) where
  abbrev pub store_file : Str → Str
  store_file o = path_join (l.storepath ∷ o ∷ [])

  abbrev pub new_object_at : Str → Str → ℕ → Object
  new_object_at name storepath updated = record {
    name = name;
    updated = updated;
    metadata = none;
    storepath = storepath;
    cachepath = cache_path_obj l.cachepath name l.id;
    cachedcopy = none;
    readonly = false;
    opened = false;
  }

  abbrev time_of : Os → Outcome Entry → ℕ
  time_of os (ok (file i)) = os.modified i
  time_of os _ = 0

  found_object : Str → Bool → Act Os Object
  found_object o false os = (fail object_not_found, os)
  found_object o true os =
      let (r, os') = stat (store_file o) os in
      (ok (new_object_at o (store_file o) (time_of os r)), os')

  -- Get
  unfoldable pub get : Str → Act Os Object
  unfolding found_object
  get o = do there ← exists (store_file o); found_object o there

  made_object : Str → Outcome Object → Act Os Object
  made_object name (fail object_not_found) = do
    ensure_dir (store_file name)
    return (new_object_at name (store_file name) 0)
  made_object name (fail e) = throw e
  made_object name (ok obj) = throw object_exists

  -- NewObject
  unfoldable pub new_object : Str → Act Os Object
  unfolding made_object
  new_object name = do r ← attempt (get name); made_object name r

  open_found : Str → Bool → Act Os ℕ
  open_found fo false = throw object_not_found
  open_found fo true = open_reader fo

  -- NewReader
  unfoldable pub new_reader : Str → Act Os ℕ
  unfolding open_found
  new_reader o = do there ← exists (store_file o); open_found (store_file o) there

  remove_there : Str → Bool → Act Os (Unit {0})
  remove_there path true = quietly (remove path)
  remove_there path false = return tt

  -- Delete
  unfoldable pub delete : Str → Act Os (Unit {0})
  unfolding remove_there
  delete obj = do
    quietly (remove (store_file obj))
    there ← exists (store_file obj ++ lit ".metadata")
    remove_there (store_file obj ++ lit ".metadata") there

  module _ (marshal : Option (Dict Str) → Str) where
    -- NewWriter; IfNotExists is in the options.
    unfoldable pub new_writer_with_context : Str → Option (Dict Str) → Bool → Act Os BufWriteCloser
    new_writer_with_context o metadata if_not_exists = do
      ensure_dir (store_file o)
      writemeta marshal (store_file o ++ lit ".metadata") (kept_metadata metadata)
      f ← open_file (store_file o) (record truncating { exclusive = if_not_exists })
      return (new_writer f)

  -- Folders, with the error of the context if it is done
  folder_names : Str → List (Str × Entry) → List Str
  folder_names prefix [] = []
  folder_names prefix ((name, directory) ∷ files) =
      (path_join (prefix ∷ name ∷ []) ++ lit "/") ∷ folder_names prefix files
  folder_names prefix ((name, file i) ∷ files) = folder_names prefix files

  listed : Outcome (List (Str × Entry)) → List (Str × Entry)
  listed (ok files) = files
  listed (fail e) = []

  folders_of : Option Err → Str → Bool → Act Os (List Str)
  unfolding folder_names listed
  folders_of ctx prefix false os = (fail (message "That folder %q does not exist"), os)
  folders_of (some e) prefix true os = (fail e, os)
  folders_of none prefix true os =
      let (r, os') = read_dir (store_file prefix) os in (ok (folder_names prefix (listed r)), os')

  unfoldable pub folders : Option Err → Str → Act Os (List Str)
  unfolding folders_of
  folders ctx prefix = do there ← exists (store_file prefix); folders_of ctx prefix there

  module _ (unmarshal : Str → Option (Dict Str))
      (map_order : List (Str × Object) → List (Str × Object)) where
    -- The two maps that the walk of List fills.
    record Maps : Type 0 where
      objects : Dict Object
      metadatas : Dict (Dict Str)

    abbrev md_added : Str → Maps → Option (Dict Str) → Outcome Maps
    md_added key maps none = fail (message "invalid character in JSON")
    md_added key maps (some md) = ok (record maps { metadatas = Dict.insert key md maps.metadatas })

    add_metadata : Str → Str → Maps → Act Os Maps
    add_metadata fo obj maps = do
      b ← read_file fo
      λ os. (md_added (replace_first obj (lit ".metadata") []) maps (unmarshal b), os)

    -- The function that Walk calls for each path.
    visit : Str → Entry → Maps → Act Os Maps
    unfolding add_metadata
    visit fo directory maps os = (ok maps, os)
    visit fo (file i) maps os =
        let obj = replace_first fo l.path_cleaned [] in
        let oname = trim_prefix obj (lit "/") in
        if str_eq (ext (base fo)) (lit ".metadata") then add_metadata fo obj maps os else (
          ok (record maps {
            objects = Dict.insert obj (new_object_at oname fo (os.modified i)) maps.objects;
          }),
          os,
        )

    visit_all : List (Str × Entry) → Maps → Act Os Maps
    unfolding visit
    visit_all [] maps = return maps
    visit_all ((fo, e) ∷ found) maps = do maps' ← visit fo e maps; visit_all found maps'

    with_metadata : Dict (Dict Str) → Str × Object → Object
    with_metadata metadatas (name, o) = elim (Dict.lookup name metadatas) [
      | none ↦ o
      | some md ↦ record o { metadata = some md }
    ]

    respond : Query Object → Maps → ObjectsResponse Object
    unfolding with_metadata
    respond q maps = record {
      objects = apply_filters q (map (with_metadata maps.metadatas) (map_order maps.objects));
      next_marker = [];
    }

    list_found : Query Object → Bool → Act Os (ObjectsResponse Object)
    unfolding visit_all respond
    list_found q false = return (record { objects = []; next_marker = [] })
    list_found q true = do
      maps ← describing "localfile: error occurred listing files." (do
        found ← walk (store_file q.prefix)
        visit_all found (record { objects = []; metadatas = [] }))
      return (respond q maps)

    -- List
    unfoldable pub list : Query Object → Act Os (ObjectsResponse Object)
    unfolding list_found
    list q = do there ← exists (store_file q.prefix); list_found q there

    -- Objects, which is a cursor over what List returned.
    unfoldable pub objects : Query Object → Act Os (List Object × ℕ)
    unfolding list
    objects q = do resp ← list q; return (resp.objects, 0)

-- Next of the iterator over a list of objects
unfoldable pub iterator_next : Act (List Object × ℕ) Object
iterator_next (objs, cursor) = elim (get_elem? objs cursor) [
  | none ↦ (fail iterator_done, (objs, cursor))
  | some o ↦ (ok o, (objs, cursor + 1))
]
