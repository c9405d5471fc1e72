-- ===== src/LocalFs/Object/Lifetime.antt =====
-- The life of a local object.
use cloudstorage.Base.{
  ℕ, ◌≡◌, refl, inl, inr, Bool, Option, arith, present, Str, Outcome, ok, fail, Act, Outcome-cases,
}
use cloudstorage.Base.Dict.{Dict}
use cloudstorage.Os.{Os, reading, truncating, open_file}
use cloudstorage.Lifecycle.{Methods, Reaches, IsKept, Keeps, bind-Keeps, reaches-Kept}
use cloudstorage.LocalFs.Object.{
  AccessLevel, read_write, is_read_only, Object, open_object, read_object, write_object,
  sync_object, close_object, release_object, opened_with, write_copy, clear_metadata, copy_back,
  store_copy, drop_copy, forget_copy, release_copy, on_files, open_copy,
}

abbrev pub State : Type 0
State = Object × Os

abbrev pub methods : (Option (Dict Str) → Str) → Methods State
methods marshal = record {
  open_object = open_object;
  read_object = read_object;
  write_object = write_object;
  sync_object = sync_object marshal;
  close_object = close_object marshal;
  release_object = release_object;
}

-- The object is open exactly if it has its cached copy.
abbrev pub IsConsistent : State → Type 0
IsConsistent (o, os) = o.opened ≡ present o.cachedcopy

opened_with-Consistent :
    (readonly : Bool) (x : Outcome ℕ × State)
    → IsConsistent x.1
    → IsConsistent (opened_with readonly x).1
unfolding opened_with
opened_with-Consistent readonly (ok h, (o, os)) p = refl
opened_with-Consistent readonly (fail e, s) p = p

on_files-Consistent : {A : Type 0} (m : Object → Act Os A) → Keeps IsConsistent (on_files m)
on_files-Consistent m = record { kept = λ s p. p }

open_object-Consistent : (level : AccessLevel) → Keeps IsConsistent (open_object level)
unfolding open_object
open_object-Consistent level = record {
  kept = λ (o, os) p. ground (
    arith,
    opened_with-Consistent (is_read_only level) (on_files (open_copy (is_read_only level)) (o, os))
        p,
  );
}

write_copy-Consistent : (bytes : Str) → Keeps IsConsistent (write_copy bytes)
unfolding write_copy
write_copy-Consistent bytes = record { kept = λ s p. p }

write_object-Consistent : (bytes : Str) → Keeps IsConsistent (write_object bytes)
unfolding write_object
write_object-Consistent bytes = record {
  kept = λ (o, os) p. ground (
    arith,
    (write_copy-Consistent bytes).kept (o, os) p,
    (bind-Keeps IsConsistent (open_object-Consistent read_write)
          (λ h. write_copy-Consistent bytes)).kept
        (o, os) p,
  );
}

release_object-Consistent : Keeps IsConsistent release_object
unfolding release_object release_copy forget_copy
release_object-Consistent = record { kept = λ (o, os) p. ground arith }

module _ (marshal : Option (Dict Str) → Str) where
  copy_back-Consistent : (a b : ℕ) → Keeps IsConsistent (copy_back marshal a b)
  unfolding copy_back clear_metadata
  copy_back-Consistent a b = record { kept = λ (o, os) p. ground arith }

  store_copy-Consistent : Keeps IsConsistent (store_copy marshal)
  unfolding store_copy
  store_copy-Consistent = record {
    kept = λ (o, os) p. elim (Outcome-cases (open_file o.cachepath reading os)) [
      | inr (x, os1, e) ↦ rw e p
      | inl (h, os1, e) ↦ elim (Outcome-cases (open_file o.storepath truncating os1)) [
        | inr (x, os2, f) ↦ rw (e, f) p
        | inl (g, os2, f) ↦ rw (e, f) ((copy_back-Consistent g h).kept (o, os2) p)
      ]
    ];
  }

  sync_object-Consistent : Keeps IsConsistent (sync_object marshal)
  unfolding sync_object
  sync_object-Consistent = record {
    kept = λ (o, os) p. ground (arith, store_copy-Consistent.kept (o, os) p);
  }

  close_object-Consistent : Keeps IsConsistent (close_object marshal)
  unfolding close_object drop_copy
  close_object-Consistent = record { kept = λ (o, os) p. ground arith }

  methods-IsKept : IsKept (methods marshal) IsConsistent
  methods-IsKept = record {
    keeps_open = open_object-Consistent;
    keeps_read = λ size. record { kept = λ s p. unfold read_object in p };
    keeps_write = write_object-Consistent;
    keeps_sync = sync_object-Consistent;
    keeps_close = close_object-Consistent;
    keeps_release = release_object-Consistent;
  }

  -- A local object that is open exactly if it has its cached copy stays so, whatever methods are
  -- called in whatever order, and whatever calls on files fail.
  pub reaches-IsConsistent :
      {s t : State} → Reaches (methods marshal) s t → IsConsistent s → IsConsistent t
  reaches-IsConsistent = reaches-Kept (methods marshal) methods-IsKept
