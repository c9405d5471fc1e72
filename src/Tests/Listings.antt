-- ===== src/Tests/Listings.antt =====
-- A bucket of one object, which is listed behind an error.
use cloudstorage.Base.{
  ℕ, zero, suc, ◌≡◌, refl, none, some, [], ◌∷◌, lit, iterator_done, not_exist, io, ok, fail, Act,
}
use cloudstorage.Query.{new_query, apply_filters}
use cloudstorage.Google.Client.{Attrs, Client}
use cloudstorage.Google.Store.{GcsFs, new_object_from, list}
use cloudstorage.Google.Store.Listing.{gives, ends, later, over, one, list-Lists}

abbrev found : Attrs
found = record { name = lit "a"; prefix = []; updated = 0; metadata = none }

-- The service is the number of answers that are left.
abbrev answer : ℕ → Act ℕ Attrs
answer iter zero = (fail iterator_done, 0)
answer iter (suc zero) = (ok found, 0)
answer iter (suc (suc n)) = (fail io, suc n)

abbrev client : Client ℕ
client = record {
  attrs = λ b n s. (fail not_exist, s);
  open_body = λ b n s. (fail not_exist, s);
  delete_object = λ b n s. (ok tt, s);
  copy_object = λ b n b' n' s. (ok tt, s);
  start_writer = λ b n md e s. (0, s);
  send = λ wc bytes s. (ok tt, s);
  close_writer = λ wc s. (ok tt, s);
  close_with_error = λ wc e s. (ok tt, s);
  list_objects = λ b d p s. (7, s);
  next_attrs = answer;
}

abbrev no_sleep : ℕ → ℕ → ℕ
no_sleep n s = s

abbrev bucket : GcsFs
bucket = record { bucket = lit "b"; cachepath = lit "c"; page_size = 10; id = lit "1" }

list-Lists_example :
    list bucket client (λ s. none) no_sleep 2 (new_query []) 2
    ≡ some (
      ok (record {
        objects = apply_filters (new_query []) (new_object_from bucket found ∷ []);
        next_marker = [];
      }),
      0,
    )
list-Lists_example =
    list-Lists bucket client no_sleep (new_query []) 2 0 (found ∷ []) refl
      (one found [] (later io refl tt (gives refl)) (over (ends refl)))
