-- ===== src/Csbufio.antt =====
-- csbufio/: a file behind a buffer, and closing both. A reader gives what the file has, so its buffer
-- does not show.
pub mod Writing
use cloudstorage.Base.{
  ℕ, zero, suc, ◌+◌, ◌-◌, ◌*◌, ◌/◌, ◌%◌, ◌^◌, ◌≤◌, ◌<◌, ◌≡◌, refl, sym, ap, ◌∙◌, ◌≢◌, ◌↔◌, ◌⊎◌, inl,
  inr, Bool, true, false, not, ◌&&◌, ◌||◌, Option, none, some, List, [], ◌∷◌, ◌++◌, map, arith,
  Bool-cases, Option-cases, present, Str, String, lit, str_eq, str_eq_iff, str_eq_refl, ltb, leb,
  ◌==◌, ==_iff, if◌then◌else◌, length, take, drop, keep, All, get_elem?, length-append, length-drop,
  drop-nil, Err, object_not_found, object_exists, iterator_done, canceled, deadline_exceeded,
  not_exist, exist, file_closed, bad_handle, eof, io, message, Outcome, ok, fail, Act, return,
  throw, attempt, ◌>>=◌, ◌>>◌, proceed, proceed-eq-ok, Outcome-cases, deferring, quietly,
  describing, described, proceed-ok, described-eq-ok,
}
use cloudstorage.Os.{Os, reading, creating, open_file, write, close}
use cloudstorage.Bufio
use cloudstorage.Bufio.{Writer, fresh_writer}

pub record BufWriteCloser : Type 0 where
  pub handle : ℕ
  pub writer : Writer

-- NewWriter
abbrev pub new_writer : ℕ → BufWriteCloser
new_writer h = record { handle = h; writer = fresh_writer }

-- OpenWriter and OpenReader
unfoldable pub open_writer : Str → Act Os BufWriteCloser
open_writer name = do h ← open_file name creating; return (new_writer h)

unfoldable pub open_reader : Str → Act Os ℕ
open_reader name = open_file name reading

-- The file as a sink
abbrev pub to_file : ℕ → Str → Act Os (Unit {0})
to_file h bytes = do n ← write h bytes; return tt

-- The methods of the embedded writer
unfoldable pub on_writer :
    ((Str → Act Os (Unit {0})) → Act (Writer × Os) (Unit {0}))
    → Act (BufWriteCloser × Os) (Unit {0})
on_writer m (w, os) =
    let (r, (v, os')) = m (to_file w.handle) (w.writer, os) in (r, (record w { writer = v }, os'))

-- Writes, one behind the other, as the client of a writer makes them
unfoldable pub write_all : List Str → Act (BufWriteCloser × Os) (Unit {0})
unfolding on_writer
write_all chunks = on_writer (λ sink. Bufio.write_all sink chunks)

-- Close: the file stays open if its last bytes cannot be written.
unfoldable pub close_writer : Act (BufWriteCloser × Os) (Unit {0})
unfolding on_writer
close_writer = do on_writer Bufio.flush; λ s. let (r, os') = close s.0.handle s.1 in (r, (s.0, os'))
