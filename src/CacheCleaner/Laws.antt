-- ===== src/CacheCleaner/Laws.antt =====
-- What CleanupCacheFiles leaves alone.
use cloudstorage.Base.{
  ℕ, ◌≡◌, refl, sym, ap, ◌∙◌, ◌≢◌, inl, inr, List, [], ◌∷◌, arith, Bool-cases, Str, str_eq,
  str_eq_iff, Outcome, ok, proceed-ok,
}
use cloudstorage.Strings.Paths.{ext}
use cloudstorage.Os.{Os, Entry}
use cloudstorage.Os.Walk.{walk}
use cloudstorage.Os.View.{text, text-remove}
use cloudstorage.FileHelper.{store_cache_file_ext}
use cloudstorage.CacheCleaner.{is_old, clean_one, clean_all, found_files, cleanup_cache_files}

clean_one-text :
    (maxage : ℕ) (x : Str × Entry) (os : Os) (p : Str)
    → ext p ≢ store_cache_file_ext
    → text (clean_one maxage x os).1 p ≡ text os p
unfolding clean_one
clean_one-text maxage (q, e) os p other = elim (Bool-cases (str_eq (ext q) store_cache_file_ext)) [
  | inr off ↦ rw (off, clean_one)
  | inl cached ↦ elim (Bool-cases (is_old maxage os e)) [
    | inr young ↦ rw (cached, young, clean_one)
    | inl old ↦
        rw (cached, old, clean_one)
          (text-remove os p q (λ same.
            other (ap ext (sym same) ∙ (str_eq_iff (ext q) store_cache_file_ext).0 cached)))
  ]
]

clean_one-ok : (maxage : ℕ) (x : Str × Entry) (os : Os) → (clean_one maxage x os).0 ≡ ok tt
unfolding clean_one
clean_one-ok maxage (q, e) os = ground arith

clean_all-step :
    (maxage : ℕ) (x : Str × Entry) (found : List (Str × Entry)) (os : Os)
    → clean_all maxage (x ∷ found) os ≡ clean_all maxage found (clean_one maxage x os).1
unfolding clean_all
clean_all-step maxage x found os =
    proceed-ok (λ (u : Unit {0}). clean_all maxage found) (clean_one maxage x os) tt
      (clean_one-ok maxage x os)

clean_all-ok :
    (maxage : ℕ) (found : List (Str × Entry)) (os : Os) → (clean_all maxage found os).0 ≡ ok tt
unfolding clean_all
clean_all-ok maxage [] os = refl
clean_all-ok maxage (x ∷ found) os =
    ap (λ (r : Outcome (Unit {0}) × Os). r.0) (clean_all-step maxage x found os)
    ∙ clean_all-ok maxage found (clean_one maxage x os).1

clean_all-text :
    (maxage : ℕ) (found : List (Str × Entry)) (os : Os) (p : Str)
    → ext p ≢ store_cache_file_ext
    → text (clean_all maxage found os).1 p ≡ text os p
unfolding clean_all
clean_all-text maxage [] os p other = refl
clean_all-text maxage (x ∷ found) os p other =
    ap (λ (r : Outcome (Unit {0}) × Os). text r.1 p) (clean_all-step maxage x found os)
    ∙ clean_all-text maxage found (clean_one maxage x os).1 p other
    ∙ clean_one-text maxage x os p other

text-walk : (root : Str) (os : Os) (p : Str) → text (walk root os).1 p ≡ text os p
unfolding walk text
text-walk root os p = ground arith

-- CleanupCacheFiles ends without an error, whatever the faults, and a file whose extension is not
-- that of a cached copy is as it was.
pub cleanup_cache_files-text :
    (maxage : ℕ) (tmp_dir : Str) (os : Os) (p : Str)
    → ext p ≢ store_cache_file_ext
    → ((cleanup_cache_files maxage tmp_dir os).0 ≡ ok tt)
      × (text (cleanup_cache_files maxage tmp_dir os).1 p ≡ text os p)
unfolding cleanup_cache_files
cleanup_cache_files-text maxage tmp_dir os p other =
    let (r, os') = walk tmp_dir os in
    (
      clean_all-ok maxage (found_files r) os',
      clean_all-text maxage (found_files r) os' p other ∙ text-walk tmp_dir os p,
    )
