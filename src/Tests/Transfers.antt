-- ===== src/Tests/Transfers.antt =====
-- A directory of cached copies that is cleaned.
use cloudstorage.Base.{◌≡◌, refl, false, none, some, [], ◌∷◌, arith, lit, ok}
use cloudstorage.Strings.Paths.{ext}
use cloudstorage.Os.{Os, directory, file}
use cloudstorage.Os.View.{text}
use cloudstorage.CacheCleaner.{cleanup_cache_files}
use cloudstorage.CacheCleaner.Laws.{cleanup_cache_files-text}

abbrev disk : Os
disk = record {
  entries = (lit "t", directory) ∷ (lit "t/a.csv", file 0) ∷ (lit "t/a.cache", file 1) ∷ [];
  inodes = λ i. lit "text";
  modified = λ i. 0;
  clock = 9;
  next_inode = 2;
  handles = λ h. record {
    path = [];
    inode = 0;
    offset = 0;
    is_open = false;
    writes = false;
    appends = false;
  };
  next_handle = 0;
  faults = none ∷ some 0 ∷ [];
}

csv : ext (lit "t/a.csv") ≡ lit ".csv"
unfolding ext
csv = refl

cleanup_cache_files-text_example :
    ((cleanup_cache_files 3 (lit "t") disk).0 ≡ ok tt)
    × (text (cleanup_cache_files 3 (lit "t") disk).1 (lit "t/a.csv") ≡ text disk (lit "t/a.csv"))
cleanup_cache_files-text_example =
    cleanup_cache_files-text 3 (lit "t") disk (lit "t/a.csv") (λ same. ground (arith, same, csv))
