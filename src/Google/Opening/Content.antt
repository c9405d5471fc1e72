-- ===== src/Google/Opening/Content.antt =====
-- Open of the object of google/store.go brings the object to the cached copy.
use cloudstorage.Base.{
  ℕ, ◌≡◌, refl, ap, inl, inr, Bool, true, false, Option, none, some, [], arith, Str, Err, Outcome,
  ok, fail, return, throw, attempt, ◌>>=◌, Outcome-cases,
}
use cloudstorage.Os.{Os, truncating, open_file, opened, hand_out, write, seek_start, close, remove}
use cloudstorage.Google.Object.{Object}
use cloudstorage.Os.Holds.{Holds, offset-seek_start, Holds-seek_start, Holds-open_file, Holds-write}
use cloudstorage.Cached.{Turn, retry, ready, filled, hand_copy}
use cloudstorage.Google.Opening.{write_body, fill_copy}

module _ (path : Str) where
  -- The handle that Open gives out is at the start.
  pub Holds-hand_copy :
      (readonly : Bool) (h k : ℕ) (text : Str) (os : Os)
      → Holds path h text os
      → (hand_copy readonly h path os).0 ≡ ok k
      → Holds path k text (hand_copy readonly h path os).1
        × (((hand_copy readonly h path os).1.handles k).offset ≡ 0)
  unfolding hand_copy seek_start close open_file opened hand_out
  Holds-hand_copy true h k text os st e = ((ground arith, ground arith), ground arith)
  Holds-hand_copy false h k text os st e = ((ground arith, ground arith), ground arith)

  abbrev pub Filled : Str → Option Err → Outcome Turn × Os → Type 0
  Filled bytes end (ok (ready k), os) = (end ≡ none) × Holds path k bytes os
  Filled bytes end (ok (retry k), os) = Holds path k [] os
  Filled bytes end (fail e, os) = Unit

  filled-fail :
      (h : ℕ) (bytes : Str) (end : Option Err) (e : Err) (os : Os)
      → Filled bytes end (filled path h (fail e) os)
  unfolding filled
  filled-fail h bytes end e os = elim (Outcome-cases (remove path os)) [
    | inr (x, os', f) ↦ rw f tt
    | inl (u, os', f) ↦ elim (Outcome-cases (open_file path truncating os')) [
      | inr (x, os'', g) ↦ rw (f, g) tt
      | inl (k, os'', g) ↦
          rw (f, g) (rw g at (Holds-open_file path k os' (ap (λ (x : Outcome ℕ × Os). x.0) g)))
    ]
  ]

  ended-Filled :
      (h : ℕ) (bytes : Str) (end : Option Err) (os : Os)
      → Holds path h bytes os
      → Filled bytes end
          ((attempt (elim end [ none ↦ return tt | some e ↦ throw e ]) >>= filled path h) os)
  unfolding filled
  ended-Filled h bytes none os st = (refl, st)
  ended-Filled h bytes (some e) os st = filled-fail h bytes (some e) e os

  pub fill_copy-Filled :
      (h : ℕ) (bytes : Str) (end : Option Err) (o : Object) (os : Os)
      → o.cachepath ≡ path
      → Holds path h [] os
      → Filled bytes end (fill_copy h bytes end o os)
  unfolding fill_copy write_body
  fill_copy-Filled h bytes end o os at st = elim (Outcome-cases (seek_start h os)) [
    | inr (x, os1, e) ↦ rw e tt
    | inl (u, os1, e) ↦
        let blank : Holds path h [] os1 = rw e at (Holds-seek_start path h [] os st) in
        let start : (os1.handles h).offset ≡ 0 =
          rw e at (offset-seek_start h os u (ap (λ (x : Outcome (Unit {0}) × Os). x.0) e)) in
        elim (Outcome-cases (write h bytes os1)) [
          | inr (x, os2, f) ↦ rw (e, f, at) (filled-fail h bytes end x os2)
          | inl (n, os2, f) ↦
              let full : Holds path h bytes os2 =
                rw f at (
                  Holds-write path h n bytes os1 blank start
                    (ap (λ (x : Outcome ℕ × Os). x.0) f)) in
              rw (e, f, at) (ended-Filled h bytes end os2 full)
        ]
  ]
