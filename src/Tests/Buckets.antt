-- ===== src/Tests/Buckets.antt =====
-- An object of a bucket that is opened, and one that is brought back. Each second call fails.
use cloudstorage.Base.{
  ℕ, ◌+◌, ◌%◌, ◌≡◌, refl, inl, inr, Bool, true, false, ◌&&◌, Option, none, some, [], ◌∷◌, ◌++◌,
  arith, Option-cases, Str, lit, str_eq, str_eq_refl, ◌==◌, if◌then◌else◌, take, Err, iterator_done,
  not_exist, io, Outcome, ok, fail,
}
use cloudstorage.Base.Dict
use cloudstorage.Base.Dict.{Dict}
use cloudstorage.Os
use cloudstorage.Strings
use cloudstorage.Strings.Paths
use cloudstorage.FileHelper
use cloudstorage.LocalFs.Object as LocalObject
use cloudstorage.Os.{Os, Handle, directory, file}
use cloudstorage.LocalFs.Object.{read_write}
use cloudstorage.Google.Client.{Attrs, Client}
use cloudstorage.Google.Object.{Object, State}
use cloudstorage.Google.Opening.{open_object}
use cloudstorage.Os.Holds.{Holds}
use cloudstorage.Google.Opening.Download.{IsStored, or_empty, open_object-content}
use cloudstorage.Google.Pushing.{sync_object}
use cloudstorage.Google.Pushing.Content.{IsBucket, sync_object-content}

-- The objects, the target and the text of the last writer, and the number of calls.
record Service : Type 0 where
  objects : Str → Str → Option Str
  target : Str × Str
  pending : Str
  calls : ℕ

abbrev counted : Service → Service
counted s = record s { calls = s.calls + 1 }

abbrev even : ℕ → Bool
even n = n % 2 == 0

abbrev attrs_of : Str → Option Str → Outcome Attrs
attrs_of name none = fail not_exist
attrs_of name (some text) = ok (record { name = name; prefix = []; updated = 0; metadata = none })

abbrev body_of : Bool → Option Str → Outcome (Str × Option Err)
body_of b none = fail not_exist
body_of true (some text) = ok (take 1 text, some io)
body_of false (some text) = ok (text, none)

abbrev put_object : Service → Service
put_object s = record s {
  objects =
      λ b n. if str_eq s.target.0 b && str_eq s.target.1 n then some s.pending else s.objects b n;
}

abbrev client : Client Service
client = record {
  attrs = λ b n s. (attrs_of n (s.objects b n), s);
  open_body = λ b n s. (body_of (even s.calls) (s.objects b n), counted s);
  delete_object = λ b n s. (ok tt, s);
  copy_object = λ b n b' n' s. (ok tt, s);
  start_writer = λ b n md e s. (0, record s { target = (b, n); pending = [] });
  send = λ wc bytes s. (ok tt, record s { pending = s.pending ++ bytes });
  close_writer = λ wc s. if even s.calls then (fail io, counted s) else (ok tt, put_object s);
  close_with_error = λ wc e s. (ok tt, s);
  list_objects = λ b d p s. (0, s);
  next_attrs = λ iter s. (fail iterator_done, s);
}

abbrev no_sleep : ℕ → Service → Service
no_sleep try s = s

client-IsStored : IsStored client no_sleep
client-IsStored = record {
  content = λ s. s.objects;
  content-attrs = λ b n s. refl;
  content-open_body = λ b n s. refl;
  content-backoff = λ try s. refl;
  attrs-missing = λ b n s e. elim (Option-cases (s.objects b n)) [
    | inl none_there ↦ none_there
    | inr (text, there) ↦ absurd (ground (arith, e, there))
  ];
  body = λ b n bytes s e. ground (arith, e);
}

client-IsBucket : IsBucket client
client-IsBucket = record {
  content = λ s. s.objects;
  pending = λ s wc. s.pending;
  target = λ s wc. s.target;
  pending-start_writer = λ b n md e s. (refl, refl);
  pending-send = λ wc bytes s e. (refl, refl);
  content-close_writer =
      λ wc s e. ground (arith, e, str_eq_refl s.target.0, str_eq_refl s.target.1);
}

abbrev service : Service
service = record {
  objects = λ b n. if str_eq n (lit "a") then some (lit "text") else none;
  target = ([], []);
  pending = [];
  calls = 0;
}

abbrev disk : Os
disk = record {
  entries = (lit "c", directory) ∷ (lit "c/a", file 0) ∷ [];
  inodes = λ i. lit "new";
  modified = λ i. 0;
  clock = 1;
  next_inode = 1;
  handles = λ h. record {
    path = lit "c/a";
    inode = 0;
    offset = 0;
    is_open = true;
    writes = true;
    appends = false;
  };
  next_handle = 1;
  faults = [];
}

abbrev object_that : Bool → Object
object_that opened = record {
  name = lit "a";
  updated = 0;
  metadata = none;
  google_object = none;
  bucket = lit "b";
  cachedcopy = if opened then some 0 else none;
  readonly = false;
  opened = opened;
  cachepath = lit "c/a";
}

abbrev no_types : Str → Str
no_types e = []

abbrev pulled : Outcome ℕ × State Service
pulled = open_object 55 client no_sleep read_write (object_that false, (service, disk))

pulled-ok : pulled ≡ (ok 2, pulled.1)
unfolding open_object Os.mkdir_all Strings.split Paths.clean Strings.has_prefix Paths.dir str_eq
    Strings.join Dict.lookup FileHelper.ensure_dir Os.stat Os.open_file Os.seek_start Os.write
    Os.remove Dict.erase Os.has_parent LocalObject.is_read_only Dict.insert Os.hand_out Os.has_child
    Os.opened Os.put_bytes Os.splice
pulled-ok = refl

open_object-content_example :
    Holds
      (lit "c/a")
      2
      (or_empty (client-IsStored.content pulled.1.1.0 (lit "b") (lit "a")))
      pulled.1.1.1
    × ((pulled.1.1.1.handles 2).offset ≡ 0)
open_object-content_example =
    open_object-content 55 client no_sleep client-IsStored read_write (object_that false) service
      disk 2 pulled.1 pulled-ok

abbrev pushed : Outcome (Unit {0}) × State Service
pushed = sync_object 55 no_types client no_sleep (object_that true, (service, disk))

pushed-ok : pushed ≡ (ok tt, pushed.1)
unfolding sync_object Os.open_file Dict.lookup str_eq Os.seek_start Os.drain
pushed-ok = refl

sync_object-content_example :
    client-IsBucket.content pushed.1.1.0 (lit "b") (lit "a") ≡ some (disk.inodes 0)
sync_object-content_example =
    sync_object-content 55 no_types client no_sleep client-IsBucket (object_that true) service disk
      0 pushed.1 (unfold Dict.lookup in unfold str_eq in refl) pushed-ok
