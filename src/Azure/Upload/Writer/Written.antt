-- ===== src/Azure/Upload/Writer/Written.antt =====
-- What comes to a blob through the writer of azure/store.go.
use cloudstorage.Base.{
  ℕ, zero, suc, ◌^◌, ◌≤◌, ◌<◌, ◌≡◌, refl, sym, ap, ◌∙◌, inl, inr, none, some, List, [], ◌∷◌, ◌++◌,
  arith, Str, length, take, drop, length-append, length-drop, eof, Outcome, ok, Act, ◌>>◌,
  Outcome-cases,
}
use mathlib.Core.List.{flatten, append-nil, append_assoc}
use cloudstorage.Base.Lists.{take-append-drop}
use cloudstorage.Base.Dict.{Dict}
use cloudstorage.Bufio
use cloudstorage.Bufio.{Writer, fresh_writer}
use cloudstorage.Bufio.Appending.{then-ok, flush-Leaves, write_all-Leaves, fresh-Stands}
use cloudstorage.Azure.BlockId.{make_block_id}
use cloudstorage.Azure.Upload.{
  BlobService, Reader, next_raw_id, staged, was_read, block_loop, commit, committed, finish,
  upload_multi_part,
}
use cloudstorage.Azure.Upload.Service.{IsBlobService}
use cloudstorage.Azure.Upload.Content.{Reads, ended, gave}
use cloudstorage.Azure.Upload.Failure.{Accepts, upload_multi_part-accepted}
use cloudstorage.Azure.Upload.Writer as PipeWriter
use cloudstorage.Azure.Upload.Writer.{
  Upload, running, finished, pause, no_read, resumed, feed, pipe_write, to_pipe, wait, on_pipe,
  write_all, close, new_azure_write_closer,
}

module _ {B : Type 0} (service : BlobService B) (name : Str) (metadata : Dict Str) where
  -- A reader of chunks up to the end of a text
  abbrev chunks : Reader (List Str)
  chunks n [] = (([], some eof), [])
  chunks n (c ∷ cs) = ((c, none), cs)

  reads-all : (cs : List Str) → Reads chunks cs cs eof []
  reads-all [] = ended refl
  reads-all (c ∷ cs) = gave refl (reads-all cs)

  -- The number behind some blocks
  abbrev counted : ℕ → List Str → ℕ
  counted k [] = k
  counted k (c ∷ cs) = counted (next_raw_id k) cs

  -- The loop over some chunks and one more
  loop-snoc :
      (cs : List Str) (k : ℕ) (blocks ids : List Str) (c : Str) (b b' b'' : B)
      → block_loop chunks service name (suc (length cs)) k blocks cs b ≡ (ok ids, ([], b'))
      → service.put_block name (make_block_id (counted k cs)) c b' ≡ (ok tt, b'')
      → block_loop chunks service name (suc (length (cs ++ c ∷ []))) k blocks (cs ++ c ∷ []) b
        ≡ (ok (ids ++ make_block_id (counted k cs) ∷ []), ([], b''))
  unfolding block_loop was_read staged
  loop-snoc [] k blocks ids c b b' b'' looped put =
      let same : blocks ≡ ids = cc in
      let here : b ≡ b' = ap (λ (x : Outcome (List Str) × (List Str × B)). x.1.1) looped in
      let put' : service.put_block name (make_block_id k) c b ≡ (ok tt, b'') = rw here put in
      rw put' (ap (λ x. (ok (x ++ make_block_id k ∷ []), ([], b''))) same)
  loop-snoc (d ∷ cs) k blocks ids c b b' b'' looped put =
      elim (Outcome-cases (service.put_block name (make_block_id k) d b)) [
        | inl (u, v, e) ↦ rw e (
            loop-snoc cs (next_raw_id k) (blocks ++ make_block_id k ∷ []) ids c v b' b''
              (rw e at looped) put)
        | inr (x, v, e) ↦ absurd (let stuck = rw e at looped in cc)
      ]

  -- The goroutine has put the bytes of a text, from a state of the service on.
  record Sent (start : B) (text : Str) (p : Upload × B) : Type 0 where
    pieces : List Str
    ids : List Str
    all : flatten pieces ≡ text
    few : length pieces ≤ length text
    at_read : p.0 ≡ running (counted 0 pieces) ids
    looped :
        block_loop chunks service name (suc (length pieces)) 0 [] pieces start ≡ (ok ids, ([], p.1))

  counted-snoc :
      (cs : List Str) (k : ℕ) (c : Str) → counted k (cs ++ c ∷ []) ≡ next_raw_id (counted k cs)
  counted-snoc [] k c = refl
  counted-snoc (d ∷ cs) k c = counted-snoc cs (next_raw_id k) c

  flatten-snoc : (cs : List Str) (c : Str) → flatten (cs ++ c ∷ []) ≡ flatten cs ++ c
  unfolding flatten
  flatten-snoc [] c = append-nil c
  flatten-snoc (d ∷ cs) c = rw (flatten-snoc cs c, append_assoc) refl

  feed-ok :
      (chunk : Str) (raw_id : ℕ) (blocks : List Str) (b b' : B)
      → service.put_block name (make_block_id raw_id) chunk b ≡ (ok tt, b')
      → feed service name metadata chunk raw_id blocks b
        ≡ (running (next_raw_id raw_id) (blocks ++ make_block_id raw_id ∷ []), b')
  unfolding feed resumed was_read staged
  feed-ok chunk raw_id blocks b b' e = rw e

  -- What the goroutine is at, behind some bytes
  Sent-snoc :
      (start : B) (c : ℕ) (piece text : Str) (raw_id : ℕ) (blocks : List Str) (b b' : B)
      → Sent start text (running raw_id blocks, b)
      → service.put_block name (make_block_id raw_id) (c ∷ piece) b ≡ (ok tt, b')
      → Sent start
          (text ++ c ∷ piece)
          (running (next_raw_id raw_id) (blocks ++ make_block_id raw_id ∷ []), b')
  Sent-snoc start c piece text raw_id blocks b b' s put =
      let number : raw_id ≡ counted 0 s.pieces = cc in
      let same : blocks ≡ s.ids = cc in
      let few = s.few in
      let snoc = length-append s.pieces ((c ∷ piece) ∷ []) in
      let longer = length-append text (c ∷ piece) in
      record {
        pieces = s.pieces ++ (c ∷ piece) ∷ [];
        ids = s.ids ++ make_block_id (counted 0 s.pieces) ∷ [];
        all = flatten-snoc s.pieces (c ∷ piece) ∙ ap (λ t. t ++ c ∷ piece) s.all;
        few = omega arith;
        at_read = rw (counted-snoc s.pieces 0 (c ∷ piece), number, same) refl;
        looped = loop-snoc s.pieces 0 [] s.ids (c ∷ piece) start b b' s.looped (rw number at put);
      }

  module _ (A : Accepts service) (start : B) where
    Sent-feed :
        (c : ℕ) (piece text : Str) (raw_id : ℕ) (blocks : List Str) (b : B)
        → Sent start text (running raw_id blocks, b)
        → Sent start (text ++ c ∷ piece) (feed service name metadata (c ∷ piece) raw_id blocks b)
    Sent-feed c piece text raw_id blocks b s =
        let x = service.put_block name (make_block_id raw_id) (c ∷ piece) b in
        let put : x ≡ (ok tt, x.1) =
          ap (λ (r : Outcome (Unit {0})). (r, x.1))
            (A.put name (make_block_id raw_id) (c ∷ piece) b) in
        rw (feed-ok (c ∷ piece) raw_id blocks b x.1 put)
          (Sent-snoc start c piece text raw_id blocks b x.1 s put)

    Sent-write :
        (fuel : ℕ) (bytes text : Str) (p : Upload × B)
        → length bytes ≤ fuel
        → Sent start text p
        → (p' : Upload × B) × (pipe_write service name metadata fuel bytes p ≡ (ok tt, p'))
          × Sent start (text ++ bytes) p'
    unfolding pipe_write
    Sent-write fuel [] text p le s = (p, refl, rw append-nil s)
    Sent-write zero (c ∷ bytes) text p le s = absurd (omega arith)
    Sent-write (suc fuel) (c ∷ bytes) text (finished r, b) le s =
        absurd (let stuck = s.at_read in cc)
    Sent-write (suc fuel) (c ∷ bytes) text (running raw_id blocks, b) le s =
        let piece = take 4194303 bytes in
        let rest = drop 4194303 bytes in
        let fewer = length-drop 4194303 bytes in
        let (p', wrote, s') =
          Sent-write fuel rest (text ++ c ∷ piece)
            (feed service name metadata (c ∷ piece) raw_id blocks b) (omega arith)
            (Sent-feed c piece text raw_id blocks b s) in
        (p', wrote, rw (append_assoc, take-append-drop 4194303 bytes) at s')

    Sent-to_pipe :
        (text bytes : Str) (p : Upload × B)
        → Sent start text p
        → (p' : Upload × B) × (to_pipe service name metadata bytes p ≡ (ok tt, p'))
          × Sent start (text ++ bytes) p'
    Sent-to_pipe text bytes p s = Sent-write (length bytes) bytes text p (omega arith) s

    new-Sent : Sent start [] (running 0 [], start)
    unfolding flatten block_loop was_read
    new-Sent = record {
      pieces = [];
      ids = [];
      all = refl;
      few = omega arith;
      at_read = refl;
      looped = refl;
    }

  -- What Wait returns is what the upload of the pieces returns.
  wait-ok :
      (k : ℕ) (ids : List Str) (b b' : B) (z : List Str)
      → finish chunks service name metadata (ok ids, ([], b)) ≡ (ok tt, (z, b'))
      → wait service name metadata (running k ids, b) ≡ (ok tt, (finished (ok tt), b'))
  unfolding wait PipeWriter.ended finish committed commit
  wait-ok k ids b b' z e = λ i. ((e i).0, (finished (e i).0, (e i).1.1))

  module _ (L : IsBlobService service) (A : Accepts service) (start : B) where
    wait-Sent :
        (text : Str) (p : Upload × B)
        → length text < 2 ^ 64
        → Sent start text p
        → (b : B) × (wait service name metadata p ≡ (ok tt, (finished (ok tt), b)))
          × (L.content b name ≡ some text)
    unfolding upload_multi_part
    wait-Sent text (finished r, b) lt s = absurd (let stuck = s.at_read in cc)
    wait-Sent text (running k ids, b) lt s =
        let few = s.few in
        let (t, uploaded, held) =
          upload_multi_part-accepted chunks service L name A metadata s.pieces start
            (reads-all s.pieces) (omega arith) in
        let same : ids ≡ s.ids = let at_read = s.at_read in cc in
        let ends : finish chunks service name metadata (ok ids, ([], b)) ≡ (ok tt, t) =
          rw same (rw (s.looped) at uploaded) in
        (t.1, wait-ok k ids b t.1 t.0 ends, held ∙ ap some s.all)

    on_pipe-ok :
        (w : Writer) (p p' : Upload × B) (m : Act (Upload × B) (Unit {0}))
        → m p ≡ (ok tt, p')
        → on_pipe service name metadata m (w, p) ≡ (ok tt, (w, p'))
    unfolding on_pipe
    on_pipe-ok w p p' m e = rw e

    -- Where the service takes every call, the writes of a client and a Close of the writer succeed,
    -- and the blob holds the bytes of all writes, one behind the other, which are fewer than 2^64.
    pub close-written :
        (writes : List Str)
        → length (flatten writes) < 2 ^ 64
        → (t : Writer × (Upload × B)) × ((write_all service name metadata writes
                >> close service name metadata)
              (new_azure_write_closer start)
            ≡ (ok tt, t))
          × (L.content t.1.1 name ≡ some (flatten writes))
    unfolding close write_all
    close-written writes lt =
        let sink = to_pipe service name metadata in
        let grows = Sent-to_pipe A start in
        let (t, wrote, s) =
          write_all-Leaves sink (Sent start) grows writes fresh_writer (running 0 [], start) []
            (fresh-Stands sink (Sent start) grows [] (running 0 [], start) (new-Sent A start)) in
        let (u, emptied, s', none_kept) =
          flush-Leaves sink (Sent start) grows t.0 t.1 (flatten writes) s in
        let all : flatten writes ≡ s'.written = s'.split ∙ rw (none_kept, append-nil) refl in
        let (b, waited, held) = wait-Sent s'.written u.1 (rw all at lt) s'.held in
        let end : Writer × (Upload × B) = (u.0, (finished (ok tt), b)) in
        (
          end,
          then-ok (write_all service name metadata writes) (close service name metadata)
              (new_azure_write_closer start) t end wrote
              (then-ok (Bufio.flush sink)
                (on_pipe service name metadata (wait service name metadata)) t u end emptied
                (on_pipe-ok u.0 u.1 (finished (ok tt), b) (wait service name metadata) waited)),
          held ∙ ap some (sym all),
        )
