-- ===== src/S3/Object/Pushed.antt =====
-- Sync of the object of awss3/store.go brings the cached copy to the bucket.
use cloudstorage.Base.{
  ℕ, ◌≡◌, sym, ap, ◌≢◌, Option, none, some, Str, Err, Outcome, ok, fail, proceed,
}
use cloudstorage.Base.Dict
use cloudstorage.Os.{Os, file, drain}
use cloudstorage.Os.Holds.{Whole, drain-Whole}
use cloudstorage.Cloud.Object.{Object, State, on_service}
use cloudstorage.Cloud.Syncing.Pushed.{sync_object-uploads}
use cloudstorage.S3.Client.{Client}
use cloudstorage.S3.Store.{Fs}
use cloudstorage.S3.Object.{upload_file, sync_object}

-- The documented behaviour of the uploader: where it ends well, its reader did not break off, and the
-- object is what the reader gave.
pub record IsUploader {C : Type 0} (client : Client C) : Type 0 where
  pub content : C → Str → Str → Option Str
  pub content-upload :
      (bucket key text : Str) (c : C)
      → (client.upload bucket key (text, none) c).0 ≡ ok tt
      → content (client.upload bucket key (text, none) c).1 bucket key ≡ some text
  pub upload-broken :
      (bucket key text : Str) (e : Err) (c : C)
      → (client.upload bucket key (text, some e) c).0 ≢ ok tt

module _ {C : Type 0} (f : Fs) (client : Client C) (copy_fuel : ℕ) (backoff : ℕ → C → C)
    (L : IsUploader client) where
  uploads :
      (o : Object) (c : C) (text : Str) (r : Outcome (Str × Option Err)) (os : Os) (t : State C)
      → Whole text r
      → proceed (λ x. on_service λ p. client.upload f.bucket p.name x) (r, (o, (c, os)))
        ≡ (ok tt, t)
      → L.content t.1.0 f.bucket o.name ≡ some text
  uploads o c text (fail e) os t whole h = cc
  uploads o c text (ok (x, some e)) os t whole h =
      absurd
        (L.upload-broken f.bucket o.name x e c (ap (λ (r : Outcome (Unit {0}) × State C). r.0) h))
  uploads o c text (ok (x, none)) os t whole h =
      rw (sym (ap (λ (r : Outcome (Unit {0}) × State C). r.1.1.0) h), sym whole)
        (L.content-upload f.bucket o.name x c (ap (λ (r : Outcome (Unit {0}) × State C). r.0) h))

  -- Sync of an object, where it ends well, leaves in the bucket of the store what is in the cached
  -- copy.
  pub sync_object-put :
      (o : Object) (c : C) (os : Os) (i : ℕ) (t : State C)
      → Dict.lookup o.cachepath os.entries ≡ some (file i)
      → sync_object f client copy_fuel backoff (o, (c, os)) ≡ (ok tt, t)
      → L.content t.1.0 f.bucket o.name ≡ some (os.inodes i)
  unfolding sync_object upload_file
  sync_object-put o c os i t there e =
      let (h, os', s, start, uploaded, same) =
        sync_object-uploads (upload_file f client copy_fuel backoff) o c os i t there e in
      rw same (
        uploads o c (os.inodes i) (drain h os').0 (drain h os').1 s
          (rw start.1 at (drain-Whole h os' start.0)) uploaded)
