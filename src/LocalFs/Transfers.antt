-- ===== src/LocalFs/Transfers.antt =====
-- The store of localfs/store.go as Copy and Move of store.go use it. It has no fast path. Each writer
-- is kept under the handle of its file.
pub mod Copied
pub mod Moved
use cloudstorage.Base.{
  ℕ, zero, suc, ◌+◌, ◌-◌, ◌*◌, ◌/◌, ◌%◌, ◌^◌, ◌≤◌, ◌<◌, ◌≡◌, refl, sym, ap, ◌∙◌, ◌≢◌, ◌↔◌, ◌⊎◌, inl,
  inr, Bool, true, false, not, ◌&&◌, ◌||◌, Option, none, some, List, [], ◌∷◌, ◌++◌, map, arith,
  Bool-cases, Option-cases, present, Str, String, lit, str_eq, str_eq_iff, str_eq_refl, ltb, leb,
  ◌==◌, ==_iff, if◌then◌else◌, length, take, drop, keep, All, get_elem?, length-append, length-drop,
  drop-nil, Err, object_not_found, object_exists, iterator_done, canceled, deadline_exceeded,
  not_exist, exist, file_closed, bad_handle, eof, io, message, Outcome, ok, fail, Act, return,
  throw, attempt, ◌>>=◌, ◌>>◌, proceed, proceed-eq-ok, Outcome-cases, deferring, quietly,
  describing, described, proceed-ok, on_second, on_second-eq-ok,
}
use cloudstorage.Base.Dict.{Dict}
use cloudstorage.Os.{Os, update, drain, close}
use cloudstorage.Bufio
use cloudstorage.Csbufio.{BufWriteCloser, on_writer, close_writer}
use cloudstorage.Transfer.{Store}
use cloudstorage.LocalFs.Object.{Object, delete_object}
use cloudstorage.LocalFs.Store.{LocalStore, store_type, new_reader, new_writer_with_context}

-- The open writers beside the files
abbrev pub World : Type 0
World = (ℕ → BufWriteCloser) × Os

writer_kept : (ℕ → BufWriteCloser) → Outcome BufWriteCloser × Os → Outcome ℕ × World
writer_kept writers (ok w, os) = (ok w.handle, (update writers w.handle w, os))
writer_kept writers (fail e, os) = (fail e, (writers, os))

-- A method of a writer
unfoldable pub with_writer : ℕ → Act (BufWriteCloser × Os) (Unit {0}) → Act World (Unit {0})
with_writer h m (writers, os) =
    let (r, (w, os')) = m (writers h, os) in (r, (update writers h w, os'))

unfoldable pub new_writer_at :
    LocalStore → (Option (Dict Str) → Str) → Str → Option (Dict Str) → Act World ℕ
unfolding writer_kept
new_writer_at l marshal name metadata (writers, os) =
    writer_kept writers (new_writer_with_context l marshal name metadata false os)

-- Delete of an object that a caller holds
delete_at : Object → Act World (Unit {0})
delete_at o (writers, os) = let (r, (o', os')) = delete_object (o, os) in (r, (writers, os'))

-- The methods that Copy and Move call
unfoldable pub as_store : LocalStore → (Option (Dict Str) → Str) → Store World Object
unfolding delete_at
as_store l marshal = record {
  name = λ o. o.name;
  storage_source = λ o. store_type;
  metadata = λ o. o.metadata;
  fast_copy = none;
  fast_move = none;
  new_writer = new_writer_at l marshal;
  new_reader = λ name. on_second (new_reader l name);
  read_all = λ h. on_second (drain h);
  write = λ h bytes. with_writer h (on_writer (λ sink. Bufio.write_buffered sink bytes));
  close_reader = λ h. on_second (close h);
  close_writer = λ h. with_writer h close_writer;
  delete = delete_at;
}
