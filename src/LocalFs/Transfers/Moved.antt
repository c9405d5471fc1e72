-- ===== src/LocalFs/Transfers/Moved.antt =====
-- What Move of store.go leaves in the local store.
use cloudstorage.Base.{
  ℕ, false, ◌≡◌, refl, sym, ◌∙◌, ◌≢◌, Option, none, some, [], ◌++◌, Str, lit, ok,
}
use cloudstorage.Base.Dict.{Dict}
use cloudstorage.Os.{Os}
use cloudstorage.Os.View.{text}
use cloudstorage.Os.Linked.{IsLinked}
use cloudstorage.Csbufio.{BufWriteCloser}
use cloudstorage.Transfer.{move}
use cloudstorage.Transfer.Running.{move-runs}
use cloudstorage.LocalFs.Object.{Object}
use cloudstorage.LocalFs.Object.Deleting.{delete_object-elsewhere, delete_object-gone}
use cloudstorage.LocalFs.Store.{LocalStore, store_file, new_writer_with_context}
use cloudstorage.LocalFs.Transfers.{World, as_store, delete_at}
use cloudstorage.LocalFs.Transfers.Copied.{copy-text}

-- Delete of an object that is not open removes no file that a Move has written.
deleted-Moved :
    (src : Object) (fo : Str) (whole : Str) (v : World)
    → src.cachedcopy ≡ none
    → src.cachepath ≢ fo
    → src.storepath ≢ fo
    → src.storepath ++ lit ".metadata" ≢ fo
    → text v.1 fo ≡ some whole
    → (text (delete_at src v).1.1 fo ≡ some whole)
      × ((delete_at src v).0 ≡ ok tt → text (delete_at src v).1.1 src.storepath ≡ none)
unfolding delete_at
deleted-Moved src fo whole (writers, os) new ne1 ne2 ne3 there =
    (delete_object-elsewhere src os new fo ne1 ne2 ne3 ∙ there, delete_object-gone src os new)

-- Move between objects of the local store that have different files, of which neither is the metadata
-- of the other, and where the source is not open and its cached copy is not the file of the
-- destination: where NewWriter of the destination succeeds, no file has two names and no call on files
-- meets a fault, the destination has the bytes of the source, and if Move succeeds, the
-- source is gone.
pub move-text :
    (l : LocalStore) (marshal : Option (Dict Str) → Str) (src des : Object)
    (writers : ℕ → BufWriteCloser) (os os1 : Os) (w : BufWriteCloser) (whole : Str)
    → IsLinked os
    → os.faults ≡ []
    → src.storepath ≡ store_file l src.name
    → src.cachedcopy ≡ none
    → text os src.storepath ≡ some whole
    → src.cachepath ≢ store_file l des.name
    → src.storepath ≢ store_file l des.name
    → src.storepath ++ lit ".metadata" ≢ store_file l des.name
    → store_file l des.name ++ lit ".metadata" ≢ src.storepath
    → new_writer_with_context l marshal des.name src.metadata false os ≡ (ok w, os1)
    → let r = move (as_store l marshal) src des (writers, os) in
      (text r.1.1 (store_file l des.name) ≡ some whole)
      × (r.0 ≡ ok tt → text r.1.1 src.storepath ≡ none)
unfolding as_store
move-text l marshal src des writers os os1 w whole linked calm at new there ne1 ne2 ne3 ne4 e =
    let (v, copied, written, kept) =
      copy-text l marshal src des writers os os1 w whole linked calm (rw at at there)
        (λ same. ne2 (at ∙ sym same)) (λ same. ne4 (same ∙ sym at)) e in
    rw (move-runs (as_store l marshal) src des (writers, os) v refl copied)
      (deleted-Moved src (store_file l des.name) whole v new ne1 ne2 ne3 written)
