-- ===== src/Azure/Upload/Writer.antt =====
-- The writer of azure/store.go: a buffer before a pipe, from which a goroutine uploads. A write to the
-- pipe hands its bytes to the reads of the upload, and returns when all are read. What the goroutine
-- does between two reads shows only in the service, so that it runs here to its next read at once.
pub mod Written
use cloudstorage.Base.{
  ℕ, zero, suc, ◌+◌, ◌-◌, ◌*◌, ◌/◌, ◌%◌, ◌^◌, ◌≤◌, ◌<◌, ◌≡◌, refl, sym, ap, ◌∙◌, ◌≢◌, ◌↔◌, ◌⊎◌, inl,
  inr, Bool, true, false, not, ◌&&◌, ◌||◌, Option, none, some, List, [], ◌∷◌, ◌++◌, map, arith,
  Bool-cases, Option-cases, present, Str, String, lit, str_eq, str_eq_iff, str_eq_refl, ltb, leb,
  ◌==◌, ==_iff, if◌then◌else◌, length, take, drop, keep, All, get_elem?, length-append, length-drop,
  drop-nil, Err, object_not_found, object_exists, iterator_done, canceled, deadline_exceeded,
  not_exist, exist, file_closed, bad_handle, eof, io, message, Outcome, ok, fail, Act, return,
  throw, attempt, ◌>>=◌, ◌>>◌, proceed, proceed-eq-ok, Outcome-cases, deferring, quietly,
  describing, described, proceed-ok, described-eq-ok,
}
use cloudstorage.Base.Dict.{Dict}
use cloudstorage.Strings.{replace_byte}
use cloudstorage.Bufio
use cloudstorage.Bufio.{Writer, fresh_writer}
use cloudstorage.Azure.Upload.{
  BlobService, Reader, initial_chunk_size, next_raw_id, was_read, finish,
}

-- The goroutine: at the read of the loop of uploadMultiPart with the number and the ids of its blocks,
-- or at its end.
pub data Upload : Type 0 where
  running : ℕ → List Str → Upload
  finished : Outcome (Unit {0}) → Upload

module _ {B : Type 0} (service : BlobService B) (name : Str) (metadata : Dict Str) where
  -- Up to the next read
  abbrev pause : List Str → Unit {0} → B → Outcome (List Str) × (Unit {0} × B)
  pause blocks r b = (ok blocks, (r, b))

  abbrev no_read : Reader (Unit {0})
  no_read size u = (([], none), u)

  resumed : ℕ → Outcome (List Str) × (Unit {0} × B) → Upload × B
  resumed raw_id (ok blocks, (r, b)) = (running (next_raw_id raw_id) blocks, b)
  resumed raw_id (fail e, (r, b)) = (finished (fail e), b)

  -- A read that got a chunk.
  feed : Str → ℕ → List Str → B → Upload × B
  unfolding resumed was_read
  feed chunk raw_id blocks b =
      resumed raw_id (was_read no_read service name pause raw_id blocks b ((chunk, none), tt))

  -- Write of the pipe, on fuel for the reads. Behind the end of the goroutine nobody reads, and the
  -- call does not return: that is an error of its own here.
  pipe_write : ℕ → Str → Act (Upload × B) (Unit {0})
  unfolding feed
  pipe_write fuel [] s = (ok tt, s)
  pipe_write zero (c ∷ bytes) s = (fail (message "out of fuel"), s)
  pipe_write (suc fuel) (c ∷ bytes) (finished r, b) =
      (fail (message "write blocks for ever"), (finished r, b))
  pipe_write (suc fuel) (c ∷ bytes) (running raw_id blocks, b) =
      pipe_write fuel (drop initial_chunk_size (c ∷ bytes))
        (feed (take initial_chunk_size (c ∷ bytes)) raw_id blocks b)

  abbrev to_pipe : Str → Act (Upload × B) (Unit {0})
  to_pipe bytes = pipe_write (length bytes) bytes

  ended : Outcome (Unit {0}) × (Unit {0} × B) → Outcome (Unit {0}) × (Upload × B)
  ended (r, (u, b)) = (r, (finished r, b))

  -- The pipe is closed: the read ends, and the goroutine goes on to its end, for which Wait waits.
  wait : Act (Upload × B) (Unit {0})
  unfolding ended
  wait (running raw_id blocks, b) =
      ended (finish no_read service name metadata (ok blocks, (tt, b)))
  wait (finished r, b) = (r, (finished r, b))

  -- Writes, each a Write of the buffer, one behind the other, as the client of a writer makes them
  pub write_all : List Str → Act (Writer × (Upload × B)) (Unit {0})
  unfolding pipe_write
  write_all = Bufio.write_all to_pipe

  on_pipe : Act (Upload × B) (Unit {0}) → Act (Writer × (Upload × B)) (Unit {0})
  on_pipe m (w, p) = let (r, p') = m p in (r, (w, p'))

  -- Close
  pub close : Act (Writer × (Upload × B)) (Unit {0})
  unfolding pipe_write wait on_pipe
  close = do Bufio.flush to_pipe; on_pipe wait

-- newAzureWriteCloser: the goroutine comes to its first read.
abbrev pub new_azure_write_closer : {B : Type 0} → B → Writer × (Upload × B)
new_azure_write_closer b = (fresh_writer, (running 0 [], b))

-- NewWriter, with the name of the blob
unfoldable pub new_writer : Str → Bool → Outcome Str
new_writer name true = fail (message "options IfNotExists not supported for store type")
new_writer name false = ok (replace_byte name b' ' (lit "+"))
