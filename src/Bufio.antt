-- ===== src/Bufio.antt =====
-- What the code uses of Go's bufio.Writer: a buffer before a sink, which takes the bytes of a Write or
-- returns an error. An error of the sink sticks to the buffer.
pub mod Appending
use cloudstorage.Base.{
  ℕ, zero, suc, ◌+◌, ◌-◌, ◌*◌, ◌/◌, ◌%◌, ◌^◌, ◌≤◌, ◌<◌, ◌≡◌, refl, sym, ap, ◌∙◌, ◌≢◌, ◌↔◌, ◌⊎◌, inl,
  inr, Bool, true, false, not, ◌&&◌, ◌||◌, Option, none, some, List, [], ◌∷◌, ◌++◌, map, arith,
  Bool-cases, Option-cases, present, Str, String, lit, str_eq, str_eq_iff, str_eq_refl, ltb, leb,
  ◌==◌, ==_iff, if◌then◌else◌, length, take, drop, keep, All, get_elem?, length-append, length-drop,
  drop-nil, Err, object_not_found, object_exists, iterator_done, canceled, deadline_exceeded,
  not_exist, exist, file_closed, bad_handle, eof, io, message, Outcome, ok, fail, Act, return,
  throw, attempt, ◌>>=◌, ◌>>◌, proceed, proceed-eq-ok, Outcome-cases, deferring, quietly,
  describing, described, proceed-ok, described-eq-ok,
}

pub record Writer : Type 0 where
  pub buffer : Str
  pub stuck : Option Err

abbrev pub buffer_size : ℕ
buffer_size = 4096

-- bufio.NewWriter
abbrev pub fresh_writer : Writer
fresh_writer = record { buffer = []; stuck = none }

module _ {S : Type 0} (sink : Str → Act S (Unit {0})) where
  -- What goes past the buffer to the sink.
  pass_on : Str → Act (Writer × S) (Unit {0})
  pass_on bytes (w, s) = elim w.stuck [
    | some e ↦ (fail e, (w, s))
    | none ↦
        let (r, s') = sink bytes s in
        elim r [ ok u ↦ (ok tt, (w, s')) | fail e ↦ (fail e, (record w { stuck = some e }, s')) ]
  ]

  empty_buffer : Act (Writer × S) (Unit {0})
  empty_buffer (w, s) = (ok tt, (record w { buffer = [] }, s))

  -- Flush
  unfoldable pub flush : Act (Writer × S) (Unit {0})
  unfolding pass_on empty_buffer
  flush (w, s) =
      if length w.buffer == 0
      then (elim w.stuck [ some e ↦ (fail e, (w, s)) | none ↦ (ok tt, (w, s)) ])
      else (do pass_on w.buffer; empty_buffer) (w, s)

  keep_in : Str → Act (Writer × S) (Unit {0})
  keep_in bytes (w, s) = (ok tt, (record w { buffer = w.buffer ++ bytes }, s))

  -- The bytes that the empty buffer has no room for go to the sink at once.
  write_rest : Str → Act (Writer × S) (Unit {0})
  write_rest bytes = if ltb buffer_size (length bytes) then pass_on bytes else keep_in bytes

  -- Write
  unfoldable pub write_buffered : Str → Act (Writer × S) (Unit {0})
  unfolding pass_on keep_in write_rest
  write_buffered bytes (w, s) =
      let room = buffer_size - length w.buffer in
      if ltb room (length bytes)
      then (if length w.buffer == 0
          then pass_on bytes (w, s)
          else (do keep_in (take room bytes); flush; write_rest (drop room bytes)) (w, s))
      else (elim w.stuck [ some e ↦ (fail e, (w, s)) | none ↦ keep_in bytes (w, s) ])

  -- Writes, one behind the other, as a client makes them
  abbrev pub write_all : List Str → Act (Writer × S) (Unit {0})
  write_all [] = return tt
  write_all (bytes ∷ chunks) = do write_buffered bytes; write_all chunks
