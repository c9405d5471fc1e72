-- ===== src/Tests/Servers.antt =====
-- An object that is brought to a server in memory, in place of its old version.
use cloudstorage.Base.{
  ℕ, ◌≡◌, refl, sym, ap, true, false, Option, none, some, [], ◌∷◌, ◌++◌, arith, Str, lit, str_eq,
  str_eq_refl, if◌then◌else◌, not_exist, io, Outcome, ok, fail,
}
use cloudstorage.Base.Dict
use cloudstorage.Base.Dict.{Dict}
use cloudstorage.Os
use cloudstorage.Os.{Os, Handle, directory, file}
use cloudstorage.Sftp.Names.{FileInfo, concat}
use cloudstorage.Sftp.Client.{Ftp, Client, Object}
use cloudstorage.Sftp.Object.{State, sync_object}
use cloudstorage.Sftp.Object.Content.{IsServer, sync_object-uploaded}

-- The files, and the name of the file that was created last
record Server : Type 0 where
  files : Str → Option Str
  created : Str

abbrev put : Str → Option Str → Server → Server
put name text s = record s { files = λ n. if str_eq name n then text else s.files n }

abbrev added : Option Str → Str → Option Str
added none bytes = none
added (some old) bytes = some (old ++ bytes)

abbrev info : Str → Option Str → Outcome FileInfo
info name none = fail not_exist
info name (some text) = ok (record { name = name; is_dir = false; mod_time = 0 })

abbrev ftp : Ftp Server
ftp = record {
  stat = λ name s. (info name (s.files name), s);
  mkdir = λ name s. (ok tt, s);
  remove = λ name s. (ok tt, put name none s);
  read_dir = λ name s. (ok [], s);
  open_file = λ name s. (ok 0, s);
  create = λ name s. (ok 1, put name (some []) (record s { created = name }));
  read_all = λ f s. (fail io, s);
  read_from = λ f bytes s. (ok tt, put s.created (added (s.files s.created) bytes) s);
  close = λ f s. (ok tt, s);
}

ftp-IsServer : IsServer ftp
ftp-IsServer = record {
  content = λ s. s.files;
  target = λ s f. s.created;
  create_lem = λ name s s' f e.
      rw (sym (ap (λ (x : Outcome ℕ × Server). x.1) e)) (refl, ground (arith, str_eq_refl name));
  read_from_lem = λ f bytes old s s' e there.
      rw (sym (ap (λ (x : Outcome (Unit {0}) × Server). x.1) e))
        (ground (arith, there, str_eq_refl s.created));
  close_lem = λ f s. refl;
}

abbrev home : Client
home = record { id = lit "1"; cachepath = lit "c"; bucket = lit "b" }

abbrev server : Server
server = record {
  files = λ n. if str_eq n (lit "b/a") then some (lit "old") else none;
  created = [];
}

abbrev disk : Os
disk = record {
  entries = (lit "c", directory) ∷ (lit "c/a", file 0) ∷ [];
  inodes = λ i. lit "new";
  modified = λ i. 0;
  clock = 1;
  next_inode = 1;
  handles = λ h. record {
    path = lit "c/a";
    inode = 0;
    offset = 3;
    is_open = true;
    writes = true;
    appends = false;
  };
  next_handle = 1;
  faults = [];
}

abbrev written : Object
written = record {
  name = lit "a";
  fi = none;
  file = some 0;
  cachedcopy = some 0;
  readonly = false;
  opened = true;
  cachepath = lit "c/a";
}

abbrev synced : Outcome (Unit {0}) × State Server
synced = sync_object home ftp (written, (([], server), disk))

synced-ok : synced ≡ (ok tt, synced.1)
unfolding sync_object Os.sync Os.close Os.open_file Dict.lookup str_eq Os.drain
synced-ok = refl

sync_object-uploaded_example :
    ftp-IsServer.content synced.1.1.0.1 (concat (lit "b" ∷ lit "a" ∷ [])) ≡ some (disk.inodes 0)
sync_object-uploaded_example =
    sync_object-uploaded home ftp ftp-IsServer written ([], server) disk 0 synced.1
      (unfold Dict.lookup in unfold str_eq in refl) synced-ok
