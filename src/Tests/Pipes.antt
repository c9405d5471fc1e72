-- ===== src/Tests/Pipes.antt =====
-- Writers of Azure and S3.
use cloudstorage.Base.{
  ◌≡◌, refl, false, Option, none, some, List, [], ◌∷◌, arith, Str, lit, str_eq, str_eq_refl,
  if◌then◌else◌, not_exist, eof, io, ok, fail, ◌>>◌,
}
use mathlib.Core.List.{flatten}
use cloudstorage.Bufio.{Writer}
use cloudstorage.Azure.Upload.Writer as AzureWriter
use cloudstorage.Azure.Upload.Writer.Written.{close-written}
use cloudstorage.S3.Client.{Client}
use cloudstorage.S3.Store.{Fs}
use cloudstorage.S3.Object.Pushed.{IsUploader}
use cloudstorage.S3.Writer as S3Writer
use cloudstorage.S3.Writer.Written.{new_writer-uploaded}
use cloudstorage.Tests.Uploads.{Blobs, table, table-IsBlobService, table-Accepts, no_blobs}

abbrev pieces : List Str
pieces = lit "to" ∷ [] ∷ lit "day" ∷ []

close-written_example :
    (t : Writer × (AzureWriter.Upload × Blobs)) × ((AzureWriter.write_all table (lit "f") [] pieces
          >> AzureWriter.close table (lit "f") [])
        (AzureWriter.new_azure_write_closer no_blobs)
      ≡ (ok tt, t))
    × (table-IsBlobService.content t.1.1 (lit "f") ≡ some (flatten pieces))
unfolding flatten
close-written_example =
    close-written table (lit "f") [] table-IsBlobService table-Accepts no_blobs pieces (omega arith)

-- A service that is a table of objects
abbrev client : Client (Str → Option Str)
client = record {
  head_object = λ b k s. (fail not_exist, s);
  get_object = λ b k s. (fail not_exist, s);
  read_body = λ b s. (fail eof, s);
  list_objects = λ input s. (fail io, s);
  upload = λ b k (text, end) s. elim end [
    | none ↦ (ok tt, λ n. if str_eq k n then some text else s n)
    | some e ↦ (fail e, s)
  ];
  delete_object = λ b k s. (ok tt, s);
}

client-IsUploader : IsUploader client
client-IsUploader = record {
  content = λ s b k. s k;
  content-upload = λ b k text s e. ground (arith, str_eq_refl k);
  upload-broken = λ b k text e s h. cc;
}

abbrev bucket : Fs
bucket = record { page_size = 2; id = lit "1"; bucket = lit "b"; cachepath = lit "c" }

abbrev start : Writer × S3Writer.Pipe
start = (record { buffer = []; stuck = none }, record { text = []; shut = false; takes = none })

new_writer-uploaded_example :
    (t : Writer × S3Writer.Pipe) × ((S3Writer.write_all pieces >> S3Writer.close) start
      ≡ (ok tt, t))
    × ((c : Str → Option Str)
        → (client.upload (lit "b") (lit "f") (flatten pieces, none) c).0 ≡ ok tt
        → client-IsUploader.content
            (S3Writer.end_upload bucket client (lit "f") t.1 c).1
            (lit "b")
            (lit "f")
          ≡ some (flatten pieces))
new_writer-uploaded_example =
    new_writer-uploaded bucket client client-IsUploader (lit "f") none pieces start
      (unfold S3Writer.new_writer in refl)
