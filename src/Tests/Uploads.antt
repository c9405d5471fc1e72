-- ===== src/Tests/Uploads.antt =====
-- An upload of two chunks into a blob service that is a table of blocks and a table of blobs.
use cloudstorage.Base.{
  ◌≡◌, refl, sym, ap, ◌&&◌, Option, none, some, List, [], ◌∷◌, map, arith, Str, lit, str_eq,
  str_eq_refl, if◌then◌else◌, Err, eof, io, Outcome, ok, fail, Act, return,
}
use mathlib.Core.List.{flatten}
use cloudstorage.Azure.Upload.{BlobService, Reader, upload_multi_part}
use cloudstorage.Azure.Upload.Service.{IsBlobService, joined}
use cloudstorage.Azure.Upload.Content.{Reads, ended, gave, upload_multi_part-content}
use cloudstorage.Azure.Upload.Failure.{
  Accepts, upload_multi_part-broken, upload_multi_part-accepted,
}

-- What is staged under a name and an id, and what is committed under a name
abbrev pub Blobs : Type 0
Blobs = (Str → Str → Option Str) × (Str → Option Str)

abbrev stage : Str → Str → Str → Act Blobs (Unit {0})
stage name id chunk (blocks, blobs) =
    (ok tt, (λ m j. if str_eq name m && str_eq id j then some chunk else blocks m j, blobs))

abbrev put_list : Str → List Str → Act Blobs (Unit {0})
put_list name ids (blocks, blobs) =
    (ok tt, (blocks, λ m. if str_eq name m then joined (map (blocks name) ids) else blobs m))

abbrev pub table : BlobService Blobs
table = record {
  put_block = stage;
  put_block_list = put_list;
  get_properties = λ name. return tt;
  set_metadata = λ name metadata. return tt;
}

pub table-IsBlobService : IsBlobService table
table-IsBlobService = record {
  staged = λ b. b.0;
  content = λ b. b.1;
  staged-put_block = λ name id chunk b b' e j.
      rw (sym (ap (λ (x : Outcome (Unit {0}) × Blobs). x.1) e)) (ground (arith, str_eq_refl name));
  content-put_block = λ name id chunk b m. refl;
  content-put_block_list = λ name ids b b' e.
      rw (sym (ap (λ (x : Outcome (Unit {0}) × Blobs). x.1) e)) (ground (arith, str_eq_refl name));
  content-get_properties = λ name b m. refl;
  content-set_metadata = λ name metadata b m. refl;
}

pub table-Accepts : Accepts table
table-Accepts = record {
  put = λ name id chunk b. refl;
  list = λ name ids b. refl;
  properties = λ name b. refl;
  metadata = λ name md b. refl;
}

-- A reader of chunks that ends with an error, with which a byte comes.
abbrev chunks : Reader (List Str × Err)
chunks n ([], e) = ((lit "z", some e), ([], e))
chunks n (c ∷ cs, e) = ((c, none), (cs, e))

abbrev two : List Str
two = lit "ab" ∷ lit "c" ∷ []

read_two : (e : Err) → Reads chunks (two, e) two e ([], e)
read_two e = gave refl (gave refl (ended refl))

abbrev pub no_blobs : Blobs
no_blobs = (λ m j. none, λ m. none)

abbrev run_two : Err → Outcome (Unit {0}) × ((List Str × Err) × Blobs)
run_two e = upload_multi_part chunks table (lit "f") 3 [] ((two, e), no_blobs)

run_two-ok : run_two eof ≡ (ok tt, (run_two eof).1)
unfolding upload_multi_part
run_two-ok = refl

upload_multi_part-content_example :
    table-IsBlobService.content (run_two eof).1.1 (lit "f") ≡ some (flatten two)
upload_multi_part-content_example =
    upload_multi_part-content chunks table table-IsBlobService (lit "f") [] two no_blobs
      (read_two eof) (omega arith) run_two-ok

upload_multi_part-broken_example :
    (x : Err) × (s : (List Str × Err) × Blobs) × (run_two io ≡ (fail x, s))
    × ((m : Str) → table-IsBlobService.content s.1 m ≡ table-IsBlobService.content no_blobs m)
upload_multi_part-broken_example =
    upload_multi_part-broken chunks table table-IsBlobService (lit "f") [] two no_blobs io
      (read_two io) tt

upload_multi_part-accepted_example :
    (s : (List Str × Err) × Blobs) × (run_two eof ≡ (ok tt, s))
    × (table-IsBlobService.content s.1 (lit "f") ≡ some (flatten two))
upload_multi_part-accepted_example =
    upload_multi_part-accepted chunks table table-IsBlobService (lit "f") table-Accepts [] two
      no_blobs (read_two eof) (omega arith)
