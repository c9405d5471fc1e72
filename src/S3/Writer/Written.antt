-- ===== src/S3/Writer/Written.antt =====
-- What comes to an object through the writer of awss3/store.go.
use cloudstorage.Base.{
  ◌≡◌, refl, sym, ap, ◌∙◌, true, false, true, Option, none, some, List, [], ◌++◌, Str, ok, ◌>>◌,
}
use mathlib.Core.List.{flatten, append-nil}
use mathlib.Core.Path.{subst}
use cloudstorage.Base.Dict.{Dict}
use cloudstorage.Bufio.{Writer, fresh_writer}
use cloudstorage.Bufio.Appending.{Stands, then-ok, flush-Leaves, write_all-Leaves, fresh-Stands}
use cloudstorage.S3.Client.{Client}
use cloudstorage.S3.Store.{Fs}
use cloudstorage.S3.Object.Pushed.{IsUploader}
use cloudstorage.S3.Writer.{Pipe, new_writer, to_pipe, shut_pipe, write_all, close, end_upload}

-- The pipe got a text, is open, and is read to its end.
record Got (text : Str) (p : Pipe) : Type 0 where
  all : p.text ≡ text
  open_end : p.shut ≡ false
  read_on : p.takes ≡ none

got-more :
    (text bytes : Str) (p : Pipe)
    → Got text p
    → (p' : Pipe) × (to_pipe bytes p ≡ (ok tt, p')) × Got (text ++ bytes) p'
unfolding to_pipe
got-more text bytes p g = (
  record p { text = p.text ++ bytes },
  rw (g.read_on) refl,
  record { all = ap (λ t. t ++ bytes) g.all; open_end = g.open_end; read_on = g.read_on },
)

close-Got :
    (w : Writer) (p : Pipe) (whole : Str)
    → Stands to_pipe Got got-more whole w p
    → (t : Writer × Pipe) × (close (w, p) ≡ (ok tt, t))
      × (t.1.text ≡ whole)
      × (t.1.shut ≡ true)
      × (t.1.takes ≡ none)
unfolding close shut_pipe
close-Got w p whole s =
    let (t, emptied, s', none_kept) = flush-Leaves to_pipe Got got-more w p whole s in
    let all : whole ≡ s'.written = s'.split ∙ rw (none_kept, append-nil) refl in
    (
      (t.0, record t.1 { shut = true }),
      rw emptied refl,
      s'.held.all ∙ sym all,
      refl,
      s'.held.read_on,
    )

module _ {C : Type 0} (f : Fs) (client : Client C) (L : IsUploader client) where
  end_upload-put :
      (name whole : Str) (p : Pipe) (c : C)
      → p.text ≡ whole
      → p.shut ≡ true
      → p.takes ≡ none
      → (client.upload f.bucket name (whole, none) c).0 ≡ ok tt
      → L.content (end_upload f client name p c).1 f.bucket name ≡ some whole
  unfolding end_upload
  end_upload-put name whole p c all shut on went =
      rw (shut, on, all) (L.content-upload f.bucket name whole c went)

  -- Where the uploader reads the pipe to its end, the writes of a client and a Close of the writer
  -- succeed: the end of the request comes behind them, and where it ends well the object has the bytes
  -- of all writes, one behind the other, whatever the metadata were.
  pub new_writer-uploaded :
      (name : Str) (metadata : Option (Dict Str)) (writes : List Str) (start : Writer × Pipe)
      → new_writer none name metadata false ≡ ok start
      → (t : Writer × Pipe) × ((write_all writes >> close) start ≡ (ok tt, t))
        × ((c : C)
            → (client.upload f.bucket name (flatten writes, none) c).0 ≡ ok tt
            → L.content (end_upload f client name t.1 c).1 f.bucket name ≡ some (flatten writes))
  unfolding new_writer write_all
  new_writer-uploaded name metadata writes start made =
      let new : (fresh_writer, record { text = []; shut = false; takes = none }) ≡ start = cc in
      let (t, wrote, s) =
        write_all-Leaves to_pipe Got got-more writes fresh_writer
          (record { text = []; shut = false; takes = none }) []
          (fresh-Stands to_pipe Got got-more [] (record { text = []; shut = false; takes = none })
            (record { all = refl; open_end = refl; read_on = refl })) in
      let (u, closed, all, shut, on) = close-Got t.0 t.1 (flatten writes) s in
      (
        u,
        subst (λ z. (write_all writes >> close) z ≡ (ok tt, u)) new
            (then-ok (write_all writes) close
              (fresh_writer, record { text = []; shut = false; takes = none }) t u wrote closed),
        λ c went. end_upload-put name (flatten writes) u.1 c all shut on went,
      )
