-- ===== src/Transfer.antt =====
-- Copy and Move of store.go, over what they call of a store and its objects.
pub mod Running
use cloudstorage.Base.{
  ℕ, zero, suc, ◌+◌, ◌-◌, ◌*◌, ◌/◌, ◌%◌, ◌^◌, ◌≤◌, ◌<◌, ◌≡◌, refl, sym, ap, ◌∙◌, ◌≢◌, ◌↔◌, ◌⊎◌, inl,
  inr, Bool, true, false, not, ◌&&◌, ◌||◌, Option, none, some, List, [], ◌∷◌, ◌++◌, map, arith,
  Bool-cases, Option-cases, present, Str, String, lit, str_eq, str_eq_iff, str_eq_refl, ltb, leb,
  ◌==◌, ==_iff, if◌then◌else◌, length, take, drop, keep, All, get_elem?, length-append, length-drop,
  drop-nil, Err, object_not_found, object_exists, iterator_done, canceled, deadline_exceeded,
  not_exist, exist, file_closed, bad_handle, eof, io, message, Outcome, ok, fail, Act, return,
  throw, attempt, ◌>>=◌, ◌>>◌, proceed, proceed-eq-ok, Outcome-cases, deferring, quietly,
  describing, described, proceed-ok,
}
use cloudstorage.Base.Dict.{Dict}

-- A store of objects, on a world. Readers and writers are numbers; what a reader gives comes with the
-- error that stops it. The fast copy and the fast move are there for some stores.
pub record Store (W O : Type 0) : Type 0 where
  pub name : O → Str
  pub storage_source : O → Str
  pub metadata : O → Option (Dict Str)
  pub fast_copy : Option (O → O → Act W (Unit {0}))
  pub fast_move : Option (O → O → Act W (Unit {0}))
  pub new_writer : Str → Option (Dict Str) → Act W ℕ
  pub new_reader : Str → Act W ℕ
  pub read_all : ℕ → Act W (Str × Option Err)
  pub write : ℕ → Str → Act W (Unit {0})
  pub close_reader : ℕ → Act W (Unit {0})
  pub close_writer : ℕ → Act W (Unit {0})
  pub delete : O → Act W (Unit {0})

module _ {W O : Type 0} (s : Store W O) where
  -- What the reader gave is written, up to its error.
  pass_on : ℕ → Str × Option Err → Act W (Unit {0})
  pass_on fout (bytes, none) = s.write fout bytes
  pass_on fout (bytes, some e) = do s.write fout bytes; throw e

  relay : ℕ → ℕ → Act W (Unit {0})
  unfolding pass_on
  relay fout fin = do
    text ← s.read_all fin
    pass_on fout text
    s.close_reader fin
    s.close_writer fout

  -- The slow path of Copy
  slow_copy : O → O → Act W (Unit {0})
  unfolding relay
  slow_copy src des = do
    fout ← s.new_writer (s.name des) (s.metadata src)
    fin ← s.new_reader (s.name src)
    relay fout fin

  -- The fast path, if both are objects of one kind of store, and the store has one.
  abbrev fast_path : Option (O → O → Act W (Unit {0})) → O → O → Option (Act W (Unit {0}))
  fast_path path src des =
      if str_eq (s.storage_source src) (s.storage_source des)
      then elim path [ none ↦ none | some m ↦ some (m src des) ]
      else none

  -- Copy
  unfoldable pub copy : O → O → Act W (Unit {0})
  unfolding slow_copy
  copy src des = elim (fast_path s.fast_copy src des) [ some m ↦ m | none ↦ slow_copy src des ]

  slow_move : O → O → Act W (Unit {0})
  unfolding copy
  slow_move src des = do copy src des; s.delete src

  -- Move
  unfoldable pub move : O → O → Act W (Unit {0})
  unfolding slow_move
  move src des = elim (fast_path s.fast_move src des) [ some m ↦ m | none ↦ slow_move src des ]
