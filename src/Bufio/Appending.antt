-- ===== src/Bufio/Appending.antt =====
-- A buffer before a sink to which bytes are added is a text to which they are added.
use cloudstorage.Base.{
  ℕ, ◌-◌, ◌≡◌, refl, sym, ap, ◌∙◌, inl, inr, true, false, none, List, [], ◌∷◌, ◌++◌, arith,
  Bool-cases, Str, ltb, ◌==◌, length, take, drop, Outcome, ok, Act, ◌>>◌, proceed,
}
use mathlib.Core.List.{flatten, append-nil, append_assoc}
use cloudstorage.Base.Lists.{take-append-drop}
use cloudstorage.Bufio.{
  buffer_size, Writer, fresh_writer, pass_on, empty_buffer, flush, keep_in, write_rest,
  write_buffered, write_all,
}

pub then-ok :
    {S : Type 0} (m k : Act S (Unit {0})) (s t u : S)
    → m s ≡ (ok tt, t)
    → k t ≡ (ok tt, u)
    → (m >> k) s ≡ (ok tt, u)
then-ok m k s t u e f = ap (proceed (λ (v : Unit {0}). k)) e ∙ f

-- A sink that takes all bytes, on states that hold a text
module _ {S : Type 0} (sink : Str → Act S (Unit {0})) (Grows : Str → S → Type 0)
    (grows : (text bytes : Str) (x : S)
      → Grows text x
      → (x' : S) × (sink bytes x ≡ (ok tt, x')) × Grows (text ++ bytes) x') where
  -- The text of a writer: what the sink has, and behind it what is in the buffer.
  pub record Stands (whole : Str) (w : Writer) (x : S) : Type 0 where
    pub written : Str
    pub held : Grows written x
    pub split : whole ≡ written ++ w.buffer
    pub unstuck : w.stuck ≡ none

  -- A call that succeeds and leaves a text
  abbrev pub Leaves : Str → Outcome (Unit {0}) × (Writer × S) → Type 0
  Leaves whole r = (t : Writer × S) × (r ≡ (ok tt, t)) × Stands whole t.0 t.1

  pass_on-ok :
      (bytes : Str) (w : Writer) (x x' : S)
      → w.stuck ≡ none
      → sink bytes x ≡ (ok tt, x')
      → pass_on sink bytes (w, x) ≡ (ok tt, (w, x'))
  unfolding pass_on
  pass_on-ok bytes w x x' unstuck e = simp (unstuck, e)

  -- Bytes that go past the buffer to the sink.
  passed :
      (bytes : Str) (w : Writer) (x : S) (whole : Str)
      → (s : Stands whole w x)
      → (x' : S) × (pass_on sink bytes (w, x) ≡ (ok tt, (w, x'))) × Grows (s.written ++ bytes) x'
  passed bytes w x whole s =
      let (x', went, f) = grows s.written bytes x s.held in
      (x', pass_on-ok bytes w x x' s.unstuck went, f)

  pass_on-Leaves :
      (bytes : Str) (w : Writer) (x : S) (whole : Str)
      → w.buffer ≡ []
      → Stands whole w x
      → Leaves (whole ++ bytes) (pass_on sink bytes (w, x))
  pass_on-Leaves bytes w x whole none_kept s =
      let (x', went, f) = passed bytes w x whole s in
      let all : whole ≡ s.written = s.split ∙ rw (none_kept, append-nil) refl in
      (
        (w, x'),
        went,
        record {
          written = s.written ++ bytes;
          held = f;
          split = rw (all, none_kept, append-nil) refl;
          unstuck = s.unstuck;
        },
      )

  keep_in-Leaves :
      (bytes : Str) (w : Writer) (x : S) (whole : Str)
      → Stands whole w x
      → Leaves (whole ++ bytes) (keep_in sink bytes (w, x))
  unfolding keep_in
  keep_in-Leaves bytes w x whole s = (
    (record w { buffer = w.buffer ++ bytes }, x),
    refl,
    record {
      written = s.written;
      held = s.held;
      split = rw (s.split, append_assoc) refl;
      unstuck = s.unstuck;
    },
  )

  flush-empty :
      (w : Writer) (x : S)
      → (length w.buffer == 0) ≡ true
      → w.stuck ≡ none
      → flush sink (w, x) ≡ (ok tt, (w, x))
  unfolding flush
  flush-empty w x e unstuck = simp (e, unstuck)

  flush-full :
      (w : Writer) (x x' : S)
      → (length w.buffer == 0) ≡ false
      → pass_on sink w.buffer (w, x) ≡ (ok tt, (w, x'))
      → flush sink (w, x) ≡ (ok tt, (record w { buffer = [] }, x'))
  unfolding flush empty_buffer
  flush-full w x x' e went = simp (e, went)

  no_bytes : (bytes : Str) → (length bytes == 0) ≡ true → bytes ≡ []
  no_bytes [] e = refl
  no_bytes (c ∷ bytes) e = absurd (ground (arith, e))

  pub flush-Leaves :
      (w : Writer) (x : S) (whole : Str)
      → Stands whole w x
      → (t : Writer × S) × (flush sink (w, x) ≡ (ok tt, t))
        × Stands whole t.0 t.1
        × (t.0.buffer ≡ [])
  flush-Leaves w x whole s = elim (Bool-cases (length w.buffer == 0)) [
    | inl e ↦ ((w, x), flush-empty w x e s.unstuck, s, no_bytes w.buffer e)
    | inr e ↦
        let (x', went, f) = passed w.buffer w x whole s in
        (
          (record w { buffer = [] }, x'),
          flush-full w x x' e went,
          record {
            written = s.written ++ w.buffer;
            held = f;
            split = s.split ∙ sym (append-nil (s.written ++ w.buffer));
            unstuck = s.unstuck;
          },
          refl,
        )
  ]

  write_rest-Leaves :
      (bytes : Str) (w : Writer) (x : S) (whole : Str)
      → w.buffer ≡ []
      → Stands whole w x
      → Leaves (whole ++ bytes) (write_rest sink bytes (w, x))
  unfolding write_rest
  write_rest-Leaves bytes w x whole none_kept s =
      elim (Bool-cases (ltb buffer_size (length bytes))) [
        | inl e ↦ rw e (pass_on-Leaves bytes w x whole none_kept s)
        | inr e ↦ rw e (keep_in-Leaves bytes w x whole s)
      ]

  -- The buffer is filled and emptied, and the rest is written.
  filled-Leaves :
      (room : ℕ) (bytes : Str) (w : Writer) (x : S) (whole : Str)
      → Stands whole w x
      → Leaves (whole ++ bytes) (
          (do keep_in sink (take room bytes); flush sink; write_rest sink (drop room bytes)) (w, x))
  filled-Leaves room bytes w x whole s =
      let (t1, kept, s1) = keep_in-Leaves (take room bytes) w x whole s in
      let (t2, emptied, s2, none_kept) = flush-Leaves t1.0 t1.1 (whole ++ take room bytes) s1 in
      let (t3, done, s3) =
        write_rest-Leaves (drop room bytes) t2.0 t2.1 (whole ++ take room bytes) none_kept s2 in
      (
        t3,
        then-ok (keep_in sink (take room bytes)) (flush sink >> write_rest sink (drop room bytes))
            (w, x) t1 t3 kept
            (then-ok (flush sink) (write_rest sink (drop room bytes)) t1 t2 t3 emptied done),
        rw (append_assoc, take-append-drop room bytes) at s3,
      )

  write-direct :
      (bytes : Str) (w : Writer) (x : S)
      → ltb (buffer_size - length w.buffer) (length bytes) ≡ true
      → (length w.buffer == 0) ≡ true
      → write_buffered sink bytes (w, x) ≡ pass_on sink bytes (w, x)
  unfolding write_buffered
  write-direct bytes w x e f = rw e (rw f refl)

  write-full :
      (bytes : Str) (w : Writer) (x : S)
      → ltb (buffer_size - length w.buffer) (length bytes) ≡ true
      → (length w.buffer == 0) ≡ false
      → let room = buffer_size - length w.buffer in
        write_buffered sink bytes (w, x)
        ≡ (do keep_in sink (take room bytes); flush sink; write_rest sink (drop room bytes)) (w, x)
  unfolding write_buffered
  write-full bytes w x e f = rw e (rw f refl)

  write-kept :
      (bytes : Str) (w : Writer) (x : S)
      → ltb (buffer_size - length w.buffer) (length bytes) ≡ false
      → w.stuck ≡ none
      → write_buffered sink bytes (w, x) ≡ keep_in sink bytes (w, x)
  unfolding write_buffered
  write-kept bytes w x e f = simp (e, f)

  -- A write, however it fits in the buffer, puts its bytes behind the text.
  pub write_buffered-Leaves :
      (bytes : Str) (w : Writer) (x : S) (whole : Str)
      → Stands whole w x
      → Leaves (whole ++ bytes) (write_buffered sink bytes (w, x))
  write_buffered-Leaves bytes w x whole s =
      let room = buffer_size - length w.buffer in
      elim (Bool-cases (ltb room (length bytes))) [
        | inr fits ↦ rw (write-kept bytes w x fits s.unstuck) (keep_in-Leaves bytes w x whole s)
        | inl more ↦ elim (Bool-cases (length w.buffer == 0)) [
          | inl e ↦
              rw (write-direct bytes w x more e)
                (pass_on-Leaves bytes w x whole (no_bytes w.buffer e) s)
          | inr e ↦ rw (write-full bytes w x more e) (filled-Leaves room bytes w x whole s)
        ]
      ]

  pub write_all-Leaves :
      (chunks : List Str) (w : Writer) (x : S) (whole : Str)
      → Stands whole w x
      → Leaves (whole ++ flatten chunks) (write_all sink chunks (w, x))
  unfolding flatten
  write_all-Leaves [] w x whole s = ((w, x), refl, rw append-nil s)
  write_all-Leaves (bytes ∷ chunks) w x whole s =
      let (t, wrote, s') = write_buffered-Leaves bytes w x whole s in
      let (u, rest, s'') = write_all-Leaves chunks t.0 t.1 (whole ++ bytes) s' in
      (
        u,
        then-ok (write_buffered sink bytes) (write_all sink chunks) (w, x) t u wrote rest,
        rw append_assoc at s'',
      )

  -- A writer of a sink that has a text stands at it.
  pub fresh-Stands : (text : Str) (x : S) → Grows text x → Stands text fresh_writer x
  fresh-Stands text x g = record {
    written = text;
    held = g;
    split = sym (append-nil text);
    unstuck = refl;
  }
