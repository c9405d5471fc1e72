-- ===== src/Sftp/Client.antt =====
-- The operations of the store of sftp/store.go, over what they call of the package github.com/pkg/sftp.
pub mod Dirs
use cloudstorage.Base.{
  ℕ, zero, suc, Bool, true, false, not, ◌&&◌, Option, none, some, List, [], ◌∷◌, ◌++◌, map, Str,
  lit, str_eq, if◌then◌else◌, drop, Err, object_not_found, object_exists, not_exist, message,
  Outcome, ok, fail, Act, return, throw, attempt, ◌>>=◌,
}
use cloudstorage.Base.Dict
use cloudstorage.Base.Dict.{Dict}
use cloudstorage.Strings.{has_prefix, split, to_lower}
use cloudstorage.Strings.Trim.{trim_left}
use cloudstorage.Strings.Paths.{path_join, slash}
use cloudstorage.Query.{Query, apply_filters}
use cloudstorage.Iterator.{ObjectsResponse}
use cloudstorage.FileHelper.{cache_path_obj}
use cloudstorage.Sftp.Names.{FileInfo, concat, filter_files}

-- Remote files that are open are numbers. What a remote file gives comes with the error that stops it.
pub record Ftp (F : Type 0) : Type 0 where
  pub stat : Str → Act F FileInfo
  pub mkdir : Str → Act F (Unit {0})
  pub remove : Str → Act F (Unit {0})
  pub read_dir : Str → Act F (List FileInfo)
  pub open_file : Str → Act F ℕ
  pub create : Str → Act F ℕ
  pub read_all : ℕ → Act F (Str × Option Err)
  pub read_from : ℕ → Str → Act F (Unit {0})
  pub close : ℕ → Act F (Unit {0})

-- Client without its connection and the directories that it knows
pub record Client : Type 0 where
  pub id : Str
  pub cachepath : Str
  pub bucket : Str

-- The object; `file` is a remote file, `fi` what Stat told of it.
pub record Object : Type 0 where
  pub name : Str
  pub fi : Option FileInfo
  pub file : Option ℕ
  pub cachedcopy : Option ℕ
  pub readonly : Bool
  pub opened : Bool
  pub cachepath : Str

module _ (m : Client) where
  abbrev pub object_at : Str → Option FileInfo → Object
  object_at name fi = record {
    name = name;
    fi = fi;
    file = none;
    cachedcopy = none;
    readonly = false;
    opened = false;
    cachepath = cache_path_obj m.cachepath name m.id;
  }

  -- newObjectFromFile
  unfoldable pub new_object_from_file : Str → FileInfo → Object
  new_object_from_file name f = object_at (trim_left name (lit "/")) (some f)

  module _ {F : Type 0} (ftp : Ftp F) where
    abbrev is_there : Outcome FileInfo → Bool
    is_there (ok f) = true
    is_there (fail e) = false

    -- Exists: any error of Stat counts as not being there.
    unfoldable pub exists : Str → F → Bool × F
    exists filename s = let (r, s') = ftp.stat filename s in (is_there r, s')

    stat_object : Str → Act F Object
    unfolding new_object_from_file
    stat_object path = do f ← ftp.stat path; return (new_object_from_file path f)

    -- Get
    unfoldable pub get : Str → Act F Object
    unfolding exists stat_object
    get name s =
        let (there, s') = exists name s in
        if there
        then stat_object (concat (m.bucket ∷ name ∷ [])) s'
        else (fail object_not_found, s')

    made_new : Str → Outcome Object → Act F Object
    made_new name (fail object_not_found) = return (object_at name none)
    made_new name (fail e) = throw e
    made_new name (ok obj) = throw object_exists

    -- NewObject
    unfoldable pub new_object : Str → Act F Object
    unfolding get made_new
    new_object name = do r ← attempt (get name); made_new name r

    -- Delete
    unfoldable pub delete : Str → Act F (Unit {0})
    unfolding exists
    delete filename s =
        let (there, s') = exists filename s in
        if there then ftp.remove (concat (m.bucket ∷ filename ∷ [])) s' else (fail not_exist, s')

    -- NewReader
    unfoldable pub new_reader : Str → Act F ℕ
    unfolding exists
    new_reader name s =
        let (there, s') = exists name s in
        if there
        then ftp.open_file (concat (m.bucket ∷ name ∷ [])) s'
        else (fail object_not_found, s')

    fetched : Outcome (List FileInfo) × F → Outcome (List FileInfo) × F
    fetched (fail not_exist, s) = (fail object_not_found, s)
    fetched x = x

    -- fetchFiles
    fetch_files : Str → Act F (List FileInfo)
    unfolding fetched
    fetch_files f s =
        let folder = concat (m.bucket ∷ f ∷ []) in
        fetched (ftp.read_dir (if str_eq folder [] then lit "." else folder) s)

    listed_name : Str → Str → Str
    listed_name path name =
        if str_eq path []
        then name
        else if has_prefix path (lit "/")
        then concat (drop 1 path ∷ name ∷ [])
        else concat (path ∷ name ∷ [])

    -- A file of a directory, if its name has the prefix of the query.
    add_file : Query Object → Str → FileInfo → List Object → List Object
    unfolding listed_name new_object_from_file
    add_file q path fi objs =
        let name = listed_name path fi.name in
        if not (str_eq q.prefix []) && not (has_prefix name q.prefix)
        then objs
        else objs ++ new_object_from_file name fi ∷ []

    -- The entries of a directory; `again` lists one below.
    list_entries :
        (Str → List Object → Act F (List Object))
        → Query Object
        → Str
        → List FileInfo
        → List Object
        → Act F (List Object)
    unfolding add_file
    list_entries again q path [] objs = return objs
    list_entries again q path (fi ∷ fil) objs =
        (if fi.is_dir
          then again (path ++ slash ∷ fi.name) objs
          else return (add_file q path fi objs))
        >>= list_entries again q path fil

    -- listFiles, on fuel for the depth of the directories
    list_files : ℕ → Query Object → Str → List Object → Act F (List Object)
    unfolding fetch_files list_entries
    list_files zero q path objs = throw (message "out of fuel")
    list_files (suc fuel) q path objs = do
      fil ← fetch_files path
      list_entries (list_files fuel q) q path fil objs

    -- List
    unfoldable pub list : ℕ → Query Object → Act F (ObjectsResponse Object)
    unfolding list_files
    list fuel q = do
      objs ← list_files fuel q m.bucket []
      return (record { objects = apply_filters q objs; next_marker = [] })

    -- filterFileNames
    filter_file_names : Str → Bool → Bool → Bool → Act F (List Str)
    unfolding fetch_files
    filter_file_names folder dirs files hidden = do
      fi ← fetch_files folder
      return (filter_files fi dirs files hidden)

    abbrev folder_of : Str → Str → Str
    folder_of folder d = path_join (folder ∷ d ∷ []) ++ lit "/"

    -- Folders, with the error of the context if it is done
    unfoldable pub folders : Option Err → Query Object → Act F (List Str)
    unfolding filter_file_names
    folders (some e) q = throw e
    folders none q = do
      dirs ← filter_file_names q.prefix true false q.show_hidden
      return (map (folder_of q.prefix) dirs)

    abbrev says_missing : Outcome FileInfo → Bool
    says_missing (fail not_exist) = true
    says_missing _ = false

    -- A directory that is not known: it is made if Stat says that it is missing, and known from then on.
    know_dir : Str → Dict (Unit {0}) × F → Dict (Unit {0}) × F
    know_dir dir (paths, s) =
        let (r, s') = ftp.stat dir s in
        (Dict.insert dir tt paths, if says_missing r then (ftp.mkdir dir s').1 else s')

    ensure_parts : List Str → Str → Dict (Unit {0}) × F → Dict (Unit {0}) × F
    unfolding know_dir
    ensure_parts [] above s = s
    ensure_parts (part ∷ []) above s = s
    ensure_parts (part ∷ next ∷ parts) above s =
        let dir = if str_eq above [] then part else above ++ slash ∷ part in
        elim (Dict.lookup dir s.0) [
          | some u ↦ ensure_parts (next ∷ parts) dir s
          | none ↦ ensure_parts (next ∷ parts) dir (know_dir dir s)
        ]

    -- ensureDir
    unfoldable pub ensure_dir : Str → Dict (Unit {0}) × F → Dict (Unit {0}) × F
    unfolding ensure_parts
    ensure_dir name s = ensure_parts (split (to_lower (concat (m.bucket ∷ name ∷ []))) slash) [] s
