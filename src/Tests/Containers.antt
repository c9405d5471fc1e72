-- ===== src/Tests/Containers.antt =====
-- An object of Azure that is brought back to a container.
use cloudstorage.Base.{
  ℕ, ◌≡◌, refl, true, false, none, some, [], ◌∷◌, arith, lit, str_eq, not_exist, eof, io, Outcome,
  ok, fail,
}
use cloudstorage.Base.Dict
use cloudstorage.Base.Dict.{Dict}
use cloudstorage.Os
use cloudstorage.Os.{Os, Handle, directory, file}
use cloudstorage.Cloud.Object.{Object, State}
use cloudstorage.Cloud.Syncing
use cloudstorage.Azure.Upload
use cloudstorage.Azure.Client.{Container}
use cloudstorage.Azure.Store.{Fs}
use cloudstorage.Azure.Object as AzureObject
use cloudstorage.Azure.Object.Pushed.{sync_object-blob}
use cloudstorage.Tests.Uploads.{Blobs, table, table-IsBlobService, no_blobs}

abbrev container : Container Blobs
container = record {
  last_modified = λ name b. (fail not_exist, b);
  get_blob = λ name b. (fail not_exist, b);
  read_body = λ body b. (fail eof, b);
  list_blobs = λ input b. (fail io, b);
  delete_blob = λ name b. (ok tt, b);
  blob_service = table;
}

abbrev no_sleep : ℕ → Blobs → Blobs
no_sleep try b = b

abbrev bucket : Fs
bucket = record { page_size = 10000; id = lit "1"; bucket = lit "b"; cachepath = lit "c" }

abbrev on_copy : Handle
on_copy = record {
  path = lit "c/a";
  inode = 0;
  offset = 0;
  is_open = true;
  writes = true;
  appends = false;
}

abbrev pub disk : Os
disk = record {
  entries = (lit "c", directory) ∷ (lit "c/a", file 0) ∷ [];
  inodes = λ i. lit "new";
  modified = λ i. 0;
  clock = 1;
  next_inode = 1;
  handles = λ h. on_copy;
  next_handle = 1;
  faults = [];
}

abbrev open_one : Object
open_one = record {
  name = lit "a";
  updated = 0;
  metadata = none;
  body = none;
  bucket = lit "b";
  cachedcopy = some 0;
  readonly = false;
  opened = true;
  cachepath = lit "c/a";
}

abbrev pushed : Outcome (Unit {0}) × State Blobs
pushed = AzureObject.sync_object bucket container 5 no_sleep (open_one, (no_blobs, disk))

pushed-ok : pushed ≡ (ok tt, pushed.1)
unfolding AzureObject.sync_object Syncing.sync_object Os.open_file Dict.lookup str_eq Os.seek_start
    Os.read Os.close Os.opened Os.hand_out Upload.upload_multi_part
pushed-ok = refl

sync_object-blob_example : table-IsBlobService.content pushed.1.1.0 (lit "a") ≡ some (disk.inodes 0)
sync_object-blob_example =
    sync_object-blob bucket container 5 no_sleep table-IsBlobService open_one no_blobs disk 0
      pushed.1 (unfold Dict.lookup in unfold str_eq in refl) (omega arith) pushed-ok
