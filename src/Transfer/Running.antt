-- ===== src/Transfer/Running.antt =====
-- The slow paths of Copy and Move, step by step, where each step succeeds.
use cloudstorage.Base.{Option, Act, ℕ, ◌≡◌, refl, none, ok, Str, str_eq, Bool-cases, inl, inr}
use cloudstorage.Transfer.{Store, pass_on, relay, slow_copy, fast_path, copy, slow_move, move}

module _ {W O : Type 0} (s : Store W O) where
  no_fast_path :
      (path : Option (O → O → Act W (Unit {0}))) (src des : O)
      → path ≡ none
      → fast_path s path src des ≡ none
  no_fast_path path src des e =
      elim (Bool-cases (str_eq (s.storage_source src) (s.storage_source des))) [
        | inl same ↦ rw (same, e) refl
        | inr other ↦ rw other refl
      ]

  pub copy-runs :
      (src des : O) (w0 w1 w2 w3 w4 w5 w6 : W) (fout fin : ℕ) (whole : Str)
      → s.fast_copy ≡ none
      → s.new_writer (s.name des) (s.metadata src) w0 ≡ (ok fout, w1)
      → s.new_reader (s.name src) w1 ≡ (ok fin, w2)
      → s.read_all fin w2 ≡ (ok (whole, none), w3)
      → s.write fout whole w3 ≡ (ok tt, w4)
      → s.close_reader fin w4 ≡ (ok tt, w5)
      → s.close_writer fout w5 ≡ (ok tt, w6)
      → copy s src des w0 ≡ (ok tt, w6)
  unfolding copy slow_copy relay pass_on
  copy-runs src des w0 w1 w2 w3 w4 w5 w6 fout fin whole no_path e1 e2 e3 e4 e5 e6 =
      rw (no_fast_path s.fast_copy src des no_path, copy, e1, e2, e3, e4, e5, e6) refl

  -- The slow path of Move
  pub move-runs :
      (src des : O) (w v : W)
      → s.fast_move ≡ none
      → copy s src des w ≡ (ok tt, v)
      → move s src des w ≡ s.delete src v
  unfolding move slow_move
  move-runs src des w v no_path copied =
      rw (no_fast_path s.fast_move src des no_path, move, copied) refl
