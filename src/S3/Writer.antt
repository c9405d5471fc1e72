-- ===== src/S3/Writer.antt =====
-- The writer of awss3/store.go: a buffer before a pipe, from which a goroutine uploads with the
-- uploader of the SDK. The uploader reads what is written, and its request is over when it ends, which
-- may be long after the Close of the writer. An uploader whose request fails stops reading, and does
-- not close its end of the pipe: a write of more bytes does not return.
pub mod Written
use cloudstorage.Base.{
  ℕ, zero, suc, ◌+◌, ◌-◌, ◌*◌, ◌/◌, ◌%◌, ◌^◌, ◌≤◌, ◌<◌, ◌≡◌, refl, sym, ap, ◌∙◌, ◌≢◌, ◌↔◌, ◌⊎◌, inl,
  inr, Bool, true, false, not, ◌&&◌, ◌||◌, Option, none, some, List, [], ◌∷◌, ◌++◌, map, arith,
  Bool-cases, Option-cases, present, Str, String, lit, str_eq, str_eq_iff, str_eq_refl, ltb, leb,
  ◌==◌, ==_iff, if◌then◌else◌, length, take, drop, keep, All, get_elem?, length-append, length-drop,
  drop-nil, Err, object_not_found, object_exists, iterator_done, canceled, deadline_exceeded,
  not_exist, exist, file_closed, bad_handle, eof, io, message, Outcome, ok, fail, Act, return,
  throw, attempt, ◌>>=◌, ◌>>◌, proceed, proceed-eq-ok, Outcome-cases, deferring, quietly,
  describing, described, proceed-ok, described-eq-ok,
}
use cloudstorage.Base.Dict.{Dict}
use cloudstorage.Bufio
use cloudstorage.Bufio.{Writer, fresh_writer}
use cloudstorage.S3.Client.{Client}
use cloudstorage.S3.Store.{Fs}

-- What came through the pipe, whether its writer is closed, and how many bytes the uploader reads yet
-- before its request fails, if it does not read the pipe to its end.
pub record Pipe : Type 0 where
  pub text : Str
  pub shut : Bool
  pub takes : Option ℕ

-- NewWriter, with an uploader: the metadata goes nowhere.
unfoldable pub new_writer : Option ℕ → Str → Option (Dict Str) → Bool → Outcome (Writer × Pipe)
new_writer takes name metadata true =
    fail (message "options IfNotExists not supported for store type")
new_writer takes name metadata false =
    ok (fresh_writer, record { text = []; shut = false; takes = takes })

-- Write of the pipe. Behind the end of the uploader nobody reads, and the call does not return: that
-- is an error of its own here.
to_pipe : Str → Act Pipe (Unit {0})
to_pipe bytes p = elim p.takes [
  | none ↦ (ok tt, record p { text = p.text ++ bytes })
  | some n ↦
      if leb (length bytes) n
      then (ok tt, record p { text = p.text ++ bytes; takes = some (n - length bytes) })
      else (
        fail (message "write blocks for ever"),
        record p { text = p.text ++ take n bytes; takes = some 0 },
      )
]

shut_pipe : Act (Writer × Pipe) (Unit {0})
shut_pipe (w, p) = (ok tt, (w, record p { shut = true }))

-- Writes, each a Write of the buffer, one behind the other, as the client of a writer makes them
pub write_all : List Str → Act (Writer × Pipe) (Unit {0})
unfolding to_pipe
write_all = Bufio.write_all to_pipe

-- Close, of csbufio: the upload goes on.
pub close : Act (Writer × Pipe) (Unit {0})
unfolding to_pipe shut_pipe
close = do Bufio.flush to_pipe; shut_pipe

module _ {C : Type 0} (f : Fs) (client : Client C) where
  -- The end of the goroutine, once the pipe is closed: an error is written to the log. An uploader that
  -- gave up before has put nothing.
  unfoldable pub end_upload : Str → Pipe → Act C (Unit {0})
  end_upload name p c =
      if p.shut
      then elim p.takes [
        | none ↦ quietly (client.upload f.bucket name (p.text, none)) c
        | some n ↦ (ok tt, c)
      ]
      else (ok tt, c)
