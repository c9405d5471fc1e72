-- ===== src/Azure/Object/Pushed.antt =====
-- Sync of the object of azure/store.go brings the cached copy to the container.
use cloudstorage.Base.{
  ℕ, zero, suc, ◌+◌, ◌^◌, ◌≤◌, ◌<◌, ◌≡◌, refl, sym, ap, ◌∙◌, ◌≢◌, ◌⊎◌, inl, inr, false, some, List,
  [], ◌∷◌, ◌++◌, arith, Bool-cases, Option-cases, Str, ◌==◌, if◌then◌else◌, length, take, drop,
  length-append, drop-nil, Err, file_closed, eof, io, Outcome, ok, fail,
}
use mathlib.Core.List.{flatten}
use mathlib.Core.Path.{subst}
use cloudstorage.Base.Dict
use cloudstorage.Os.{Os, file, read, unread, advance, next_fault, past_fault, unless_fault}
use cloudstorage.Cloud.Object.{Object, State}
use cloudstorage.Cloud.Syncing.Pushed.{AtStart, sync_object-uploads}
use cloudstorage.Azure.Client.{Container}
use cloudstorage.Azure.Store.{Fs}
use cloudstorage.Azure.Upload.{initial_chunk_size, upload_multi_part}
use cloudstorage.Base.Lists.{take-append-drop}
use cloudstorage.Azure.Upload.Content.{upload_multi_part-content}
use cloudstorage.Azure.Upload.Failure.{IsBroken, upload_multi_part-broken}
use cloudstorage.Azure.Upload.Service.{IsBlobService}
use cloudstorage.Azure.Upload.Content.{Reads, ended, gave}
use cloudstorage.Azure.Upload.Fuel.{upload_multi_part-more}
use cloudstorage.Azure.Object.{as_read, reader, or_nil, upload_file, sync_object}

-- What the reads of a file gave: all of it, where they came to its end.
record Given (h : ℕ) (os : Os) : Type 0 where
  chunks : List Str
  end : Err
  after : Os
  reads : Reads (reader h) os chunks end after
  all : end ≡ eof → flatten chunks ≡ unread os h
  few : length chunks ≤ length (unread os h)

drop-drop : (m n : ℕ) (text : Str) → drop n (drop m text) ≡ drop (m + n) text
drop-drop zero n text = let same : 0 + n ≡ n = omega arith in rw same refl
drop-drop (suc m) n [] = let more : suc m + n ≡ suc (m + n) = omega arith in rw more (drop-nil n)
drop-drop (suc m) n (c ∷ text) =
    let more : suc m + n ≡ suc (m + n) = omega arith in rw more (drop-drop m n text)

unread-advance : (h n : ℕ) (os : Os) → unread (advance h n os) h ≡ drop n (unread os h)
unread-advance h n os =
    rw (drop-drop (os.handles h).offset n (os.inodes (os.handles h).inode)) (ground arith)

length-take-le : (n : ℕ) (text : Str) → length (take n text) ≤ length text
length-take-le zero text = omega arith
length-take-le (suc n) [] = omega arith
length-take-le (suc n) (c ∷ text) = omega (arith, length-take-le n text)

drop-length-take : (n : ℕ) (text : Str) → drop (length (take n text)) text ≡ drop n text
drop-length-take zero text = refl
drop-length-take (suc n) [] = refl
drop-length-take (suc n) (c ∷ text) = drop-length-take n text

-- What a read does.
data Read (h : ℕ) (os : Os) : Outcome Str × Os → Type 0 where
  broke : (e : Err) (os' : Os) → e ≢ eof → Read h os (fail e, os')
  at_end : (os' : Os) → unread os h ≡ [] → Read h os (fail eof, os')
  took :
      (c : ℕ) (chunk : Str) (os' : Os)
      → unread os h ≡ (c ∷ chunk) ++ unread os' h
      → Read h os (ok (c ∷ chunk), os')

text-Read :
    (h size : ℕ) (os : Os) (text : Str)
    → unread os h ≡ text
    → Read h os (
        if length (take (suc size) text) == 0
        then (fail eof, past_fault os)
        else (ok (take (suc size) text), advance h (length (take (suc size) text)) (past_fault os)))
text-Read h size os [] e = at_end (past_fault os) e
text-Read h size os (c ∷ text) e =
    let n = length (take size text) in
    let some_there : (suc n == 0) ≡ false = ground arith in
    let behind : unread (advance h (suc n) (past_fault os)) h ≡ drop size text =
      unread-advance h (suc n) (past_fault os) ∙ rw e (drop-length-take size text) in
    rw some_there (
      took c (take size text) (advance h (suc n) (past_fault os))
        (e ∙ rw (behind, take-append-drop size text) refl))

read-Read : (h size : ℕ) (os : Os) → Read h os (read h (suc size) os)
unfolding read
read-Read h size os = elim (Bool-cases (os.handles h).is_open) [
  | inr shut ↦ rw shut (broke file_closed os (λ i. cc))
  | inl there ↦ elim (Option-cases (next_fault os)) [
    | inr (n, fault) ↦ rw there (rw (unless_fault, fault) (broke io (past_fault os) (λ i. cc)))
    | inl calm ↦ rw there (rw (unless_fault, calm) (text-Read h size os (unread os h) refl))
  ]
]

-- A read, and those behind it
given-Read :
    (h : ℕ) (os : Os) (x : Outcome Str × Os)
    → Read h os x
    → read h initial_chunk_size os ≡ x
    → ((os' : Os) → length (unread os' h) < length (unread os h) → Given h os')
    → Given h os
unfolding flatten
given-Read h os _ (broke e os' ne) came rest = record {
  chunks = [];
  end = e;
  after = os';
  reads = ended (ap as_read came);
  all = λ i. absurd (ne i);
  few = omega arith;
}
given-Read h os _ (at_end os' none_left) came rest = record {
  chunks = [];
  end = eof;
  after = os';
  reads = ended (ap as_read came);
  all = λ i. sym none_left;
  few = omega arith;
}
given-Read h os _ (took c chunk os' e) came rest =
    let lengths : length (unread os h) ≡ suc (length chunk) + length (unread os' h) =
      rw e (length-append (c ∷ chunk) (unread os' h)) in
    let g = rest os' (omega arith) in
    record {
      chunks = (c ∷ chunk) ∷ g.chunks;
      end = g.end;
      after = g.after;
      reads = gave (ap as_read came) g.reads;
      all = λ i. ap (λ t. (c ∷ chunk) ++ t) (g.all i) ∙ sym e;
      few = let fewer = g.few in omega arith;
    }

given : (n h : ℕ) (os : Os) → length (unread os h) < n → Given h os
given zero h os lt = absurd (omega arith)
given (suc n) h os lt =
    given-Read h os (read h initial_chunk_size os) (read-Read h 4194303 os) refl
      (λ os' fewer. given n h os' (omega arith))

Err-cases : (e : Err) → (e ≡ eof) ⊎ IsBroken e
Err-cases eof = inl refl
Err-cases _ = inr tt

module _ {C : Type 0} (f : Fs) (container : Container C) (copy_fuel : ℕ) (backoff : ℕ → C → C)
    (L : IsBlobService container.blob_service) where
  uploads :
      (o : Object) (c : C) (h : ℕ) (os : Os) (text : Str) (s : State C)
      → AtStart h text os
      → length text < 2 ^ 64
      → upload_file f container copy_fuel backoff h (o, (c, os)) ≡ (ok tt, s)
      → L.content s.1.0 o.name ≡ some text
  unfolding upload_file
  uploads o c h os text s start short e =
      let md = or_nil o.metadata in
      let run =
        upload_multi_part (reader h) container.blob_service o.name (suc (length (unread os h))) md
          (os, c) in
      let g = given (suc (length (unread os h))) h os (omega arith) in
      let few = g.few in
      let same =
        upload_multi_part-more (reader h) container.blob_service o.name (suc (length (unread os h)))
          md c g.reads (omega arith) in
      let whole : unread os h ≡ text = rw start.0 start.1 in
      let ended_ok : run.0 ≡ ok tt = ap (λ (x : Outcome (Unit {0}) × State C). x.0) e in
      let service : s.1.0 ≡ run.1.1 = sym (ap (λ (x : Outcome (Unit {0}) × State C). x.1.1.0) e) in
      elim (Err-cases g.end) [
        | inl at_eof ↦
            let all : flatten g.chunks ≡ text = g.all at_eof ∙ whole in
            let fewer : length (unread os h) ≡ length text = ap length whole in
            let done = sym same ∙ ap (λ (r : Outcome (Unit {0})). (r, run.1)) ended_ok in
            let rs = subst (λ x. Reads (reader h) os g.chunks x g.after) at_eof g.reads in
            rw service (
              upload_multi_part-content (reader h) container.blob_service L o.name md g.chunks c rs
                (omega arith) done
              ∙ ap some all)
        | inr broken ↦
            let (x, s', failed, kept) =
              upload_multi_part-broken (reader h) container.blob_service L o.name md g.chunks c
                g.end g.reads broken in
            absurd (
              let stuck : fail x ≡ ok tt =
                ap (λ (x : Outcome (Unit {0}) × (Os × C)). x.0) (sym failed ∙ sym same)
                ∙ ended_ok in
              cc)
      ]

  -- Sync of an object, where it ends well, leaves in the blob of its name what is in the cached copy,
  -- which is shorter than 2^64 bytes.
  pub sync_object-blob :
      (o : Object) (c : C) (os : Os) (i : ℕ) (t : State C)
      → Dict.lookup o.cachepath os.entries ≡ some (file i)
      → length (os.inodes i) < 2 ^ 64
      → sync_object f container copy_fuel backoff (o, (c, os)) ≡ (ok tt, t)
      → L.content t.1.0 o.name ≡ some (os.inodes i)
  unfolding sync_object
  sync_object-blob o c os i t there short e =
      let (h, os', s, start, uploaded, same) =
        sync_object-uploads (upload_file f container copy_fuel backoff) o c os i t there e in
      rw same (uploads o c h os' (os.inodes i) s start short uploaded)
