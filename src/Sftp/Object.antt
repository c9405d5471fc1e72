-- ===== src/Sftp/Object.antt =====
-- The object of sftp/store.go: a remote file and its cached copy. A method acts on the object, on
-- the directories that the client knows, on the server and on the local files.
pub mod Content
use cloudstorage.Base.{
  ℕ, Bool, true, false, not, Option, none, some, [], ◌∷◌, present, Str, lit, if◌then◌else◌, Err,
  file_closed, message, Outcome, ok, fail, Act, return, throw, ◌>>=◌, ◌>>◌, deferring, quietly,
  describing, described,
}
use cloudstorage.Base.Dict.{Dict}
use cloudstorage.Strings.{replace_byte}
use cloudstorage.Os
use cloudstorage.Os.{Os, reading, creating, open_file, write, read, sync, close, remove, drain}
use cloudstorage.FileHelper
use cloudstorage.LocalFs.Object.{AccessLevel, read_write, is_read_only, with_copy}
use cloudstorage.Sftp.Names.{concat}
use cloudstorage.Sftp.Client
use cloudstorage.Sftp.Client.{Ftp, Client, Object}

abbrev pub State : Type 0 → Type 0
State F = Object × ((Dict (Unit {0}) × F) × Os)

module _ {F : Type 0} where
  abbrev pub on_os {ℓ} : {A : Type ℓ} → (Object → Act Os A) → State F → Outcome A × State F
  on_os m (o, (c, os)) = let (r, os') = m o os in (r, (o, (c, os')))

  abbrev pub on_server {ℓ} : {A : Type ℓ} → (Object → Act F A) → State F → Outcome A × State F
  on_server m (o, ((paths, s), os)) = let (r, s') = m o s in (r, (o, ((paths, s'), os)))

  abbrev change : (Object → Object) → Act (State F) (Unit {0})
  change f (o, w) = (ok tt, (f o, w))

  -- Of a local file that was closed before, that is no error.
  unless_closed : Outcome (Unit {0}) × State F → Outcome (Unit {0}) × State F
  unless_closed (fail file_closed, s) = (ok tt, s)
  unless_closed x = x

-- What a remote file gives is written to the copy, up to its error.
fill : ℕ → Str × Option Err → Act Os (Unit {0})
fill h (bytes, end) = do n ← write h bytes; elim end [ none ↦ return tt | some e ↦ throw e ]

abbrev appending : Os.Flags
appending = record creating { append = true }

module _ {F : Type 0} (m : Client) (ftp : Ftp F) where
  abbrev remote_name : Object → Str
  remote_name o = concat (m.bucket ∷ o.name ∷ [])

  copy_remote : ℕ → ℕ → Act (State F) (Unit {0})
  unfolding fill
  copy_remote h f = do text ← on_server λ o. ftp.read_all f; on_os λ o. fill h text

  -- A file that Stat found is opened, copied, and its copy opened anew.
  copy_found : ℕ → Act (State F) ℕ
  unfolding copy_remote
  copy_found h = do
    f ← on_server λ o. ftp.open_file (remote_name o)
    change (λ o. record o { file = some f })
    copy_remote h f
    quietly (on_os λ o. close h)
    on_os λ o. open_file o.cachepath appending

  pull : ℕ → Act (State F) ℕ
  unfolding copy_remote copy_found
  pull h (o, w) = elim o.file [
    | some f ↦ (do copy_remote h f; return h) (o, w)
    | none ↦ elim o.fi [ none ↦ (ok h, (o, w)) | some fi ↦ copy_found h (o, w) ]
  ]

  mark_open : Bool → ℕ → Act (State F) ℕ
  mark_open readonly h (o, w) =
      (ok h, (record o { cachedcopy = some h; readonly = readonly; opened = true }, w))

  -- Open
  unfoldable pub open_object : AccessLevel → Act (State F) ℕ
  unfolding pull mark_open
  open_object level (o, w) =
      if o.opened
      then (fail (message "the store object is already opened. %s"), (o, w))
      else (do
        on_os
            λ p. describing "could not create cachedcopy's dir." (FileHelper.ensure_dir p.cachepath)
        h ← on_os λ p. describing "could not open cachedcopy file." (open_file p.cachepath creating)
        k ← pull h
        mark_open (is_read_only level) k)
          (o, w)

  -- Read and Write
  unfoldable pub read_object : ℕ → Act (State F) Str
  read_object size = on_os λ o. with_copy (λ h. read h size) o.cachedcopy

  write_copy : Str → Act (State F) ℕ
  write_copy bytes = on_os λ o. with_copy (λ h. write h bytes) o.cachedcopy

  unfoldable pub write_object : Str → Act (State F) ℕ
  unfolding write_copy open_object
  write_object bytes (o, w) =
      if present o.cachedcopy
      then write_copy bytes (o, w)
      else (do h ← open_object read_write; write_copy bytes) (o, w)

  make_dirs : Act (State F) (Unit {0})
  make_dirs (o, (c, os)) = (ok tt, (o, (Client.ensure_dir m ftp o.name c, os)))

  -- The remote file that the object holds makes room for the new version.
  drop_old : Act (State F) (Unit {0})
  drop_old (o, w) = elim o.file [
    | none ↦ (ok tt, (o, w))
    | some f ↦
        (do
          quietly (on_server λ p. ftp.close f)
          on_server λ p. ftp.remove (remote_name p)
          change (λ p. record p { file = none }))
          (o, w)
  ]

  send : ℕ → Str × Option Err → Act (State F) (Unit {0})
  send f (bytes, end) = do
    on_server λ o. ftp.read_from f bytes
    elim end [ none ↦ return tt | some e ↦ throw e ]

  -- upload of what a local file gives
  unfoldable pub upload : ℕ → Act (State F) (Unit {0})
  unfolding make_dirs drop_old send
  upload h = do
    make_dirs
    drop_old
    f ← on_server λ o. ftp.create (remote_name o)
    deferring (on_server λ o. ftp.close f) (do text ← on_os λ o. drain h; send f text)

  -- What Sync does behind its tests.
  push_copy : ℕ → Act (State F) (Unit {0})
  unfolding upload unless_closed
  push_copy old = do
    λ s. unless_closed (on_os (λ o. sync old) s)
    λ s. unless_closed (on_os (λ o. close old) s)
    h ← on_os λ o. open_file o.cachepath reading
    upload h
    change (λ o. record o { cachedcopy = some h })
    on_os λ o. describing "error on closing localfile. %q" (close h)

  -- Sync
  unfoldable pub sync_object : Act (State F) (Unit {0})
  unfolding push_copy
  sync_object (o, w) =
      if not o.opened
      then (fail (message "object isn't opened object:%s"), (o, w))
      else if o.readonly
      then (fail (message "trying to Sync a readonly object:%s"), (o, w))
      else elim o.cachedcopy [
        | none ↦ (fail (message "No cached copy"), (o, w))
        | some h ↦ push_copy h (o, w)
      ]

  drop_copy : Act (State F) (Unit {0})
  drop_copy (o, (c, os)) =
      (ok tt, (record o { cachedcopy = none; opened = false }, (c, (remove o.cachepath os).1)))

  close_remote : Act (State F) (Unit {0})
  close_remote (o, w) = elim o.file [
    | none ↦ (ok tt, (o, w))
    | some f ↦ on_server (λ p. ftp.close f) (o, w)
  ]

  shut_copy : Act (State F) (Unit {0})
  unfolding unless_closed
  shut_copy s =
      described "error on sync and closing localfile. %q"
        (unless_closed (on_os (λ o. with_copy close o.cachedcopy) s))

  closing : Act (State F) (Unit {0})
  unfolding sync_object close_remote shut_copy
  closing (o, w) =
      if not o.readonly then sync_object (o, w) else (do close_remote; shut_copy) (o, w)

  -- Close
  unfoldable pub close_object : Act (State F) (Unit {0})
  unfolding drop_copy closing
  close_object (o, w) = if not o.opened then (ok tt, (o, w)) else deferring drop_copy closing (o, w)

  release_copy : ℕ → Act (State F) (Unit {0})
  release_copy h = do
    quietly (on_os λ o. close h)
    change (λ o. record o { cachedcopy = none; opened = false })
    on_os λ o. remove o.cachepath

  -- Release
  unfoldable pub release_object : Act (State F) (Unit {0})
  unfolding release_copy close_remote
  release_object (o, w) = elim o.cachedcopy [
    | some h ↦ release_copy h (o, w)
    | none ↦ (do close_remote; quietly (on_os λ p. remove p.cachepath)) (o, w)
  ]

  -- Delete of an object
  unfoldable pub delete_object : Act (State F) (Unit {0})
  delete_object = on_server λ o. Client.delete m ftp o.name

-- NewWriter: the object of a new file, opened. IfNotExists is in the options.
unfoldable pub new_writer :
    {F : Type 0} → Client → Ftp F → Str → Bool → Act ((Dict (Unit {0}) × F) × Os) Object
unfolding open_object
new_writer m ftp name true w =
    (fail (message "options IfNotExists not supported for store type"), w)
new_writer m ftp name false ((paths, s), os) =
    let plain = replace_byte name b' ' (lit "+") in
    let (there, s1) = Client.exists m ftp plain s in
    let (x, s2) = if there then Client.delete m ftp plain s1 else (ok tt, s1) in
    elim x [
      | fail e ↦ (fail e, ((paths, s2), os))
      | ok u ↦
          let (r, s3) = Client.new_object m ftp plain s2 in
          elim r [
            | fail e ↦ (fail e, ((paths, s3), os))
            | ok o ↦
                let (k, (o', w)) = open_object m ftp read_write (o, ((paths, s3), os)) in
                (elim k [ fail e ↦ fail e | ok h ↦ ok o' ], w)
          ]
    ]
