-- ===== src/Tests/Clouds.antt =====
-- Objects of S3 and Azure that are opened and brought back, and the pages of a bucket.
use cloudstorage.Base.{
  ℕ, suc, ◌≡◌, refl, sym, Bool, true, false, Option, none, some, List, [], ◌∷◌, arith, Str, lit,
  str_eq, str_eq_refl, ltb, ◌==◌, if◌then◌else◌, length, take, drop, not_exist, eof, io, Outcome,
  ok, fail, Act,
}
use mathlib.Core.List.{flatten}
use cloudstorage.Base.Lists.{take-append-drop}
use cloudstorage.Base.Dict
use cloudstorage.Base.Dict.{Dict}
use cloudstorage.Strings
use cloudstorage.Strings.{has_prefix}
use cloudstorage.Strings.Paths
use cloudstorage.FileHelper
use cloudstorage.Os
use cloudstorage.Os.{Os, Handle, directory, file}
use cloudstorage.Os.Holds.{Holds}
use cloudstorage.Query.{Query, new_query, str_ltb, apply_filters}
use cloudstorage.Query.Behind.{behind}
use cloudstorage.Iterator.{ObjectPageIterator, objects_all, next}
use cloudstorage.LocalFs.Object.{read_write}
use cloudstorage.Cached
use cloudstorage.Cloud.Object.{Object, State}
use cloudstorage.Cloud.Opening
use cloudstorage.Cloud.Opening.Download.{Answered, found, later, ended, gave, open_object-Answered}
use cloudstorage.Cloud.Syncing
use cloudstorage.Cloud.Closing
use cloudstorage.Cloud.Closing.Reset.{close_object_lem}
use cloudstorage.S3.Client.{Content, ListInput, Client}
use cloudstorage.S3.Store
use cloudstorage.S3.Store.{Fs, or_empty, get_s3_open_object}
use cloudstorage.S3.Store.Paging.{wanted, IsListing, all_left, objects-all}
use cloudstorage.S3.Object
use cloudstorage.S3.Object.Pushed.{IsUploader, sync_object-put}

-- The objects by their keys, what is left of the body, and the number of calls.
record Service : Type 0 where
  objects : Str → Option Str
  left : List Str
  calls : ℕ

abbrev keys : List Content
keys =
    record { key = lit "a"; last_modified = none }
    ∷ record { key = lit "ab"; last_modified = some 7 }
    ∷ record { key = lit "b"; last_modified = none }
    ∷ []

-- A page has one key.
abbrev left_of : ListInput → List Content
left_of input = behind (λ x. x.key) (wanted input.prefix) (or_empty input.marker) keys

-- The first call fails, and a body comes in two chunks.
abbrev client : Client Service
client = record {
  head_object = λ b k s. (fail not_exist, s);
  get_object = λ b k s.
      if s.calls == 0
      then (fail io, record s { calls = 1 })
      else (ok 0, record s { left = lit "te" ∷ lit "xt" ∷ [] });
  read_body = λ b s. elim s.left [ [] ↦ (fail eof, s) | c ∷ cs ↦ (ok c, record s { left = cs }) ];
  list_objects = λ input s. (
    ok (record {
      contents = take 1 (left_of input);
      common_prefixes = [];
      is_truncated = some (ltb 0 (length (drop 1 (left_of input))));
    }),
    s,
  );
  upload = λ b k (text, end) s. elim end [
    | none ↦ (ok tt, record s { objects = λ n. if str_eq k n then some text else s.objects n })
    | some e ↦ (fail e, s)
  ];
  delete_object = λ b k s. (ok tt, s);
}

abbrev no_sleep : ℕ → Service → Service
no_sleep try s = s

abbrev service : Service
service = record { objects = λ n. none; left = []; calls = 0 }

no_page : (xs : List Content) → take 1 xs ≡ [] → drop 1 xs ≡ []
no_page [] e = refl
no_page (x ∷ xs) e = cc

client-IsListing : IsListing client
client-IsListing = record {
  contents = λ c b. keys;
  ascends = λ c b. unfold str_ltb in (refl, (refl, (refl, tt)));
  answers = λ input c d m. (
    take 1 (left_of input),
    drop 1 (left_of input),
    sym (take-append-drop 1 (left_of input)),
    no_page (left_of input),
    refl,
  );
}

abbrev bucket : Fs
bucket = record { page_size = 2; id = lit "1"; bucket = lit "b"; cachepath = lit "c" }

abbrev plain : Query Object
plain = new_query (lit "a")

objects-all_example :
    (it : ObjectPageIterator Object) × (objects_all
        (next (Store.list bucket client) (λ _. none) no_sleep)
        (suc (length (all_left bucket client no_sleep client-IsListing plain service)))
        (Store.objects bucket client (λ _. none) no_sleep plain, service)
      ≡ some (
        ok (apply_filters plain (all_left bucket client no_sleep client-IsListing plain service)),
        (it, service),
      ))
objects-all_example =
    objects-all bucket client no_sleep client-IsListing plain service refl (omega arith)

abbrev on_copy : Handle
on_copy = record {
  path = lit "c/a";
  inode = 0;
  offset = 0;
  is_open = true;
  writes = true;
  appends = false;
}

abbrev disk : Os
disk = record {
  entries = (lit "c", directory) ∷ (lit "c/a", file 0) ∷ [];
  inodes = λ i. lit "new";
  modified = λ i. 0;
  clock = 1;
  next_inode = 1;
  handles = λ h. on_copy;
  next_handle = 1;
  faults = [];
}

abbrev object_that : Bool → Object
object_that opened = record {
  name = lit "a";
  updated = 0;
  metadata = none;
  body = none;
  bucket = lit "b";
  cachedcopy = if opened then some 0 else none;
  readonly = false;
  opened = opened;
  cachepath = lit "c/a";
}

-- The download of an object
abbrev body_of : Object → Act Service ℕ
body_of o = get_s3_open_object bucket client o.name

abbrev asked : Service
asked = record service { calls = 1 }

abbrev emptied : Service
emptied = record asked { left = [] }

answered :
    Answered 3 5 body_of client.read_body no_sleep
      (object_that false)
      3
      0
      service
      (lit "text")
      emptied
unfolding get_s3_open_object flatten
answered = later io refl tt (found refl (gave refl (gave refl (ended refl))) (omega arith))

abbrev copied : Outcome ℕ × Os
copied = Cached.create_copy (lit "c/a") disk

copied-ok : copied ≡ (ok 1, copied.1)
unfolding Cached.create_copy FileHelper.ensure_dir Paths.dir Paths.clean Strings.has_prefix
    Strings.split Strings.join str_eq Os.stat Os.mkdir_all Dict.lookup Os.open_file Os.opened
    Os.hand_out Os.has_parent
copied-ok = refl

open_object-Answered_example :
    let x =
      Opening.open_object 3 5 body_of client.read_body no_sleep read_write
        (object_that false, (service, disk)) in
    (k : ℕ) × (x.0 ≡ ok k)
    × Holds (lit "c/a") k (lit "text") x.1.1.1
    × ((x.1.1.1.handles k).offset ≡ 0)
    × (x.1.1.0 ≡ emptied)
open_object-Answered_example =
    open_object-Answered 3 5 body_of client.read_body no_sleep read_write (object_that false)
      service emptied disk copied.1 1 (lit "text") refl refl refl copied-ok answered

client-IsUploader : IsUploader client
client-IsUploader = record {
  content = λ s b k. s.objects k;
  content-upload = λ b k text s e. ground (arith, str_eq_refl k);
  upload-broken = λ b k text e s h. cc;
}

abbrev pushed : Outcome (Unit {0}) × State Service
pushed = Object.sync_object bucket client 5 no_sleep (object_that true, (service, disk))

pushed-ok : pushed ≡ (ok tt, pushed.1)
unfolding Object.sync_object Syncing.sync_object Os.open_file Dict.lookup str_eq Os.seek_start
    Os.drain Os.close Os.opened Os.hand_out
pushed-ok = refl

sync_object-put_example :
    client-IsUploader.content pushed.1.1.0 (lit "b") (lit "a") ≡ some (disk.inodes 0)
sync_object-put_example =
    sync_object-put bucket client 5 no_sleep client-IsUploader (object_that true) service disk 0
      pushed.1 (unfold Dict.lookup in unfold str_eq in refl) pushed-ok

-- The Close of an object that is open for reading
abbrev read_only : Object
read_only = record (object_that true) { readonly = true }

abbrev close : Act (State Service) (Unit {0})
close = Closing.close_object (Object.sync_object bucket client 5 no_sleep)

close_object_lem_example :
    let s = (close (read_only, (service, disk))).1 in
    (s.0.opened ≡ false)
    × (read_only.opened ≡ true → s.0.cachedcopy ≡ none)
    × (close s ≡ (ok tt, s))
    × (read_only.readonly ≡ true → s.1.0 ≡ service)
close_object_lem_example =
    close_object_lem (Object.sync_object bucket client 5 no_sleep) read_only service disk
