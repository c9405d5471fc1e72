-- ===== src/Cloud/Opening/Download.antt =====
-- An Open that gets an answer brings the object to the cached copy, where no call on files meets a
-- fault.
use cloudstorage.Base.{
  ℕ, zero, suc, ◌+◌, ◌<◌, ◌≡◌, refl, ap, ◌∙◌, Bool, false, none, some, List, [], ◌∷◌, ◌++◌, arith,
  Str, length, Err, object_not_found, eof, Outcome, ok, fail, Act,
}
use mathlib.Core.List.{flatten, append-nil, append_assoc}
use cloudstorage.Os.{Os, write, seek_start}
use cloudstorage.Os.Holds.{Holds}
use cloudstorage.Os.Fresh.{Fresh, Fresh-seek_start, Fresh-write}
use cloudstorage.LocalFs.Object.{AccessLevel, is_read_only}
use cloudstorage.Cached.{retry, ready, filled, hand_copy, create_copy}
use cloudstorage.Cached.Calm.{create_copy-Fresh, hand_copy-calm}
use cloudstorage.Cloud.Object.{Object, State, on_os, sleep}
use cloudstorage.Cloud.Opening.{
  wrote, got_chunk, copy_body, asked, ask, copy_all, fill_copy, fetch_body, pull, pass, turned,
  open_loop, mark_open, open_object,
}

module _ {C : Type 0} (read_body : ℕ → Act C Str) where
  -- A body gives some chunks, and then its end.
  pub data Gives (body : ℕ) : C → List Str → C → Type 0 where
    ended : {c d : C} → read_body body c ≡ (fail eof, d) → Gives body c [] d
    gave :
        {c v d : C} {chunk : Str} {chunks : List Str}
        → read_body body c ≡ (ok chunk, v)
        → Gives body v chunks d
        → Gives body c (chunk ∷ chunks) d

  module _ (path : Str) (h body : ℕ) where
    copy_body-step :
        (fuel n : ℕ) (c v : C) (chunk : Str) (os os' : Os)
        → read_body body c ≡ (ok chunk, v)
        → write h chunk os ≡ (ok n, os')
        → copy_body read_body (suc fuel) h body (c, os) ≡ copy_body read_body fuel h body (v, os')
    unfolding copy_body got_chunk wrote
    copy_body-step fuel n c v chunk os os' e w = rw (e, got_chunk) (rw (w, wrote) refl)

    copy_body-Gives :
        (fuel : ℕ) {c d : C} {chunks : List Str} (text : Str) (os : Os)
        → Gives body c chunks d
        → length chunks < fuel
        → Fresh path h text os
        → (os' : Os) × (copy_body read_body fuel h body (c, os) ≡ (ok tt, (d, os')))
          × Fresh path h (text ++ flatten chunks) os'
    unfolding copy_body got_chunk flatten
    copy_body-Gives zero text os g lt f = absurd (omega arith)
    copy_body-Gives (suc fuel) text os (ended e) lt f = (os, rw e, rw append-nil f)
    copy_body-Gives (suc fuel) text os (gave {v = v} {chunk = chunk} {chunks = chunks} e g) lt f =
        let (went, f') = Fresh-write path h text chunk os f in
        let written : write h chunk os ≡ (ok (length chunk), (write h chunk os).1) =
          ap (λ (r : Outcome ℕ). (r, (write h chunk os).1)) went in
        let (os', copied, f'') =
          copy_body-Gives fuel (text ++ chunk) (write h chunk os).1 g (omega arith) f' in
        (
          os',
          copy_body-step fuel (length chunk) _ v chunk os (write h chunk os).1 e written ∙ copied,
          rw append_assoc at f'',
        )

-- An error after which Open tries again.
abbrev pub IsRetried : Err → Type 0
IsRetried object_not_found = ⊥
IsRetried e = Unit

module _ {C : Type 0} (retries copy_fuel : ℕ) (get_body : Object → Act C ℕ)
    (read_body : ℕ → Act C Str) (backoff : ℕ → C → C) where
  -- With some passes left, the download of an object is answered at last: by a body that gives a
  -- text in fewer chunks than the fuel, or with the error that there is no object, which stands for
  -- the empty text.
  pub data Answered (o : Object) : ℕ → ℕ → C → Str → C → Type 0 where
    found :
        {left try : ℕ} {c v d : C} {body : ℕ} {chunks : List Str}
        → get_body o c ≡ (ok body, v)
        → Gives read_body body v chunks d
        → length chunks < copy_fuel
        → Answered o (suc left) try c (flatten chunks) d
    none_there :
        {left try : ℕ} {c d : C}
        → get_body o c ≡ (fail object_not_found, d)
        → Answered o (suc left) try c [] d
    later :
        {left try : ℕ} {c v d : C} {text : Str} (e : Err)
        → get_body o c ≡ (fail e, v)
        → IsRetried e
        → Answered o left (try + 1) (backoff try v) text d
        → Answered o (suc left) try c text d

  module _ (o : Object) (new : o.body ≡ none) (h : ℕ) where
    fill_copy-steps :
        (p : Object) (body : ℕ) (c d : C) (os os1 os2 : Os)
        → seek_start h os ≡ (ok tt, os1)
        → copy_body read_body copy_fuel h body (c, os1) ≡ (ok tt, (d, os2))
        → fill_copy retries copy_fuel get_body read_body backoff h body (p, (c, os))
          ≡ (ok (ready h), (p, (d, os2)))
    unfolding fill_copy copy_all filled
    fill_copy-steps p body c d os os1 os2 e f = rw (e, f)

    fill_copy-Gives :
        (p : Object) (body : ℕ) {c d : C} {chunks : List Str} (os : Os)
        → Gives read_body body c chunks d
        → length chunks < copy_fuel
        → Fresh o.cachepath h [] os
        → (os' : Os) × (fill_copy retries copy_fuel get_body read_body backoff h body (p, (c, os))
            ≡ (ok (ready h), (p, (d, os'))))
          × Fresh o.cachepath h (flatten chunks) os'
    fill_copy-Gives p body {c} {d} {chunks} os g lt f =
        let (went, f') = Fresh-seek_start o.cachepath h os f in
        let sought : seek_start h os ≡ (ok tt, (seek_start h os).1) =
          ap (λ (r : Outcome (Unit {0})). (r, (seek_start h os).1)) went in
        let (os', copied, f'') =
          copy_body-Gives read_body o.cachepath h body copy_fuel [] (seek_start h os).1 g lt f' in
        (os', fill_copy-steps p body c d os (seek_start h os).1 os' sought copied, f'')

    ask-IsRetried :
        (e : Err) (v : C) (os : Os)
        → IsRetried e
        → asked retries copy_fuel get_body read_body backoff o os (fail e, v)
          ≡ (ok false, (o, (v, os)))
    unfolding asked
    ask-IsRetried object_not_found v os t = absurd t
    ask-IsRetried _ v os t = refl

    -- What Open gives: a handle at the start of the copy.
    abbrev Opens : Bool → Str → C → Outcome ℕ × State C → Type 0
    Opens readonly text d x =
        (k : ℕ) × (x.0 ≡ ok k)
        × Holds o.cachepath k text x.1.1.1
        × ((x.1.1.1.handles k).offset ≡ 0)
        × (x.1.1.0 ≡ d)

    handed :
        (readonly : Bool) (p : Object) (text : Str) (d : C) (os : Os)
        → p.cachepath ≡ o.cachepath
        → Fresh o.cachepath h text os
        → Opens readonly text d (on_os (λ q. hand_copy readonly h q.cachepath) (p, (d, os)))
    handed readonly p text d os at f =
        let (k, went, held, start) = hand_copy-calm o.cachepath h text readonly os f in
        rw at (k, went, held, start, refl)

    ask-found :
        (c v : C) (os : Os) (body : ℕ)
        → get_body o c ≡ (ok body, v)
        → pass retries copy_fuel get_body read_body backoff h (o, (c, os))
          ≡ fill_copy retries copy_fuel get_body read_body backoff h body
              (record o { body = some body }, (v, os))
    unfolding pass ask asked pull fetch_body
    ask-found c v os body e = rw new (rw e refl)

    ask-missing :
        (c d : C) (os : Os)
        → get_body o c ≡ (fail object_not_found, d)
        → pass retries copy_fuel get_body read_body backoff h (o, (c, os))
          ≡ (ok (ready h), (o, (d, os)))
    unfolding pass ask asked pull fetch_body
    ask-missing c d os e = simp (new, e)

    ask-later :
        (c v : C) (os : Os) (e : Err)
        → get_body o c ≡ (fail e, v)
        → IsRetried e
        → pass retries copy_fuel get_body read_body backoff h (o, (c, os))
          ≡ (ok (retry h), (o, (v, os)))
    unfolding pass ask pull
    ask-later c v os e failed t = simp (new, failed, ask-IsRetried e v os t)

    loop-ready :
        (left try : ℕ) (readonly : Bool) (s t : State C)
        → pass retries copy_fuel get_body read_body backoff h s ≡ (ok (ready h), t)
        → open_loop retries copy_fuel get_body read_body backoff (suc left) try readonly h s
          ≡ on_os (λ q. hand_copy readonly h q.cachepath) t
    unfolding open_loop turned
    loop-ready left try readonly s t e = rw e

    loop-retry :
        (left try : ℕ) (readonly : Bool) (s t : State C)
        → pass retries copy_fuel get_body read_body backoff h s ≡ (ok (retry h), t)
        → open_loop retries copy_fuel get_body read_body backoff (suc left) try readonly h s
          ≡ open_loop retries copy_fuel get_body read_body backoff left
              (try + 1)
              readonly
              h
              (sleep backoff try t).1
    unfolding open_loop turned
    loop-retry left try readonly s t e = rw e

    open_loop-Answered :
        {left try : ℕ} {c d : C} {text : Str} (readonly : Bool) (os : Os)
        → Answered o left try c text d
        → Fresh o.cachepath h [] os
        → Opens readonly text d (
            open_loop retries copy_fuel get_body read_body backoff left try readonly h (o, (c, os)))
    open_loop-Answered readonly os (found {left} {try} {c} {v} {d} {body} {chunks} e g lt) f =
        let p = record o { body = some body } in
        let (os', filled_copy, f') = fill_copy-Gives p body os g lt f in
        rw
          (loop-ready left try readonly (o, (c, os)) (p, (d, os'))
            (ask-found c v os body e ∙ filled_copy))
          (handed readonly p (flatten chunks) d os' refl f')
    open_loop-Answered readonly os (none_there {left} {try} {c} {d} e) f =
        rw (loop-ready left try readonly (o, (c, os)) (o, (d, os)) (ask-missing c d os e))
          (handed readonly o [] d os refl f)
    open_loop-Answered readonly os (later {left} {try} {c} {v} x e t more) f =
        rw (loop-retry left try readonly (o, (c, os)) (o, (v, os)) (ask-later c v os x e t))
          (open_loop-Answered readonly os more f)

  open_object-made :
      (level : AccessLevel) (o : Object) (c : C) (os os' : Os) (h : ℕ)
      → o.opened ≡ false
      → create_copy o.cachepath os ≡ (ok h, os')
      → open_object retries copy_fuel get_body read_body backoff level (o, (c, os))
        ≡ mark_open retries copy_fuel get_body read_body backoff (is_read_only level) (
            open_loop retries copy_fuel get_body read_body backoff retries 0
              (is_read_only level)
              h
              (o, (c, os')))
  unfolding open_object
  open_object-made level o c os os' h shut made = simp (shut, made)

  mark_open-ok :
      (readonly : Bool) (x : Outcome ℕ × State C) (k : ℕ)
      → x.0 ≡ ok k
      → ((mark_open retries copy_fuel get_body read_body backoff readonly x).0 ≡ ok k)
        × ((mark_open retries copy_fuel get_body read_body backoff readonly x).1.1 ≡ x.1.1)
  unfolding mark_open
  mark_open-ok readonly (ok h, (o, w)) k e = (e, refl)
  mark_open-ok readonly (fail y, s) k e = cc

  -- Open of an object that is not open and was not asked for, where the copy can be made, no call on
  -- files meets a fault, and the download is answered within the passes of the loop, succeeds: it
  -- gives out a handle at the start of the copy, which is the whole text of the answer.
  pub open_object-Answered :
      (level : AccessLevel) (o : Object) (c d : C) (os os' : Os) (h : ℕ) (text : Str)
      → o.opened ≡ false
      → o.body ≡ none
      → os.faults ≡ []
      → create_copy o.cachepath os ≡ (ok h, os')
      → Answered o retries 0 c text d
      → let x = open_object retries copy_fuel get_body read_body backoff level (o, (c, os)) in
        (k : ℕ) × (x.0 ≡ ok k)
        × Holds o.cachepath k text x.1.1.1
        × ((x.1.1.1.handles k).offset ≡ 0)
        × (x.1.1.0 ≡ d)
  unfolding open_object
  open_object-Answered level o c d os os' h text shut new calm made answered =
      let opens =
        open_loop-Answered o new h (is_read_only level) os' answered
          (create_copy-Fresh o.cachepath os h os' calm made) in
      let loop =
        open_loop retries copy_fuel get_body read_body backoff retries 0 (is_read_only level) h
          (o, (c, os')) in
      let (k, went, held, start, service) = opens in
      let (marked, world) = mark_open-ok (is_read_only level) loop k went in
      rw (open_object-made level o c os os' h shut made)
        (rw world (k, marked, held, start, service))
