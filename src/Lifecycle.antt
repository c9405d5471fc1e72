-- ===== src/Lifecycle.antt =====
-- The interface Object of store.go: the methods of an object on a state of it and of the world, and
-- the states that a client comes to by calling them, in whatever order.
use cloudstorage.Base.{ℕ, Str, Outcome, ok, fail, Act, ◌>>=◌, proceed, deferring}
use cloudstorage.LocalFs.Object.{AccessLevel}

pub record Methods (S : Type 0) : Type 0 where
  pub open_object : AccessLevel → Act S ℕ
  pub read_object : ℕ → Act S Str
  pub write_object : Str → Act S ℕ
  pub sync_object : Act S (Unit {0})
  pub close_object : Act S (Unit {0})
  pub release_object : Act S (Unit {0})

-- A call keeps a property of the state, and so do calls that are made of calls that keep it.
pub record Keeps {S A : Type 0} (P : S → Type 0) (m : Act S A) : Type 0 where
  pub kept : (s : S) → P s → P (m s).1

module _ {S : Type 0} (P : S → Type 0) where
  proceed-Keeps :
      {A B : Type 0} (f : A → Act S B) (x : Outcome A × S)
      → ((a : A) → Keeps P (f a))
      → P x.1
      → P (proceed f x).1
  proceed-Keeps f (ok a, s) k p = (k a).kept s p
  proceed-Keeps f (fail e, s) k p = p

  pub bind-Keeps :
      {A B : Type 0} {m : Act S A} {f : A → Act S B}
      → Keeps P m
      → ((a : A) → Keeps P (f a))
      → Keeps P (m >>= f)
  bind-Keeps {m = m} {f = f} k l = record { kept = λ s p. proceed-Keeps f (m s) l (k.kept s p) }

  pub deferring-Keeps :
      {A B : Type 0} {cleanup : Act S B} {m : Act S A}
      → Keeps P cleanup
      → Keeps P m
      → Keeps P (deferring cleanup m)
  deferring-Keeps k l = record { kept = λ s p. k.kept _ (l.kept s p) }

module _ {S : Type 0} (m : Methods S) where
  -- A call of a method, whatever it returns
  pub data Step : S → S → Type 0 where
    opens : (level : AccessLevel) (s : S) → Step s (m.open_object level s).1
    reads : (size : ℕ) (s : S) → Step s (m.read_object size s).1
    writes : (bytes : Str) (s : S) → Step s (m.write_object bytes s).1
    syncs : (s : S) → Step s (m.sync_object s).1
    closes : (s : S) → Step s (m.close_object s).1
    releases : (s : S) → Step s (m.release_object s).1

  pub data Reaches : S → S → Type 0 where
    here : (s : S) → Reaches s s
    there : {s t u : S} → Step s t → Reaches t u → Reaches s u

  -- What every method keeps
  pub record IsKept (P : S → Type 0) : Type 0 where
    pub keeps_open : (level : AccessLevel) → Keeps P (m.open_object level)
    pub keeps_read : (size : ℕ) → Keeps P (m.read_object size)
    pub keeps_write : (bytes : Str) → Keeps P (m.write_object bytes)
    pub keeps_sync : Keeps P m.sync_object
    pub keeps_close : Keeps P m.close_object
    pub keeps_release : Keeps P m.release_object

  module _ {P : S → Type 0} (k : IsKept P) where
    step-Kept : {s t : S} → Step s t → P s → P t
    step-Kept (opens level s) p = (k.keeps_open level).kept s p
    step-Kept (reads size s) p = (k.keeps_read size).kept s p
    step-Kept (writes bytes s) p = (k.keeps_write bytes).kept s p
    step-Kept (syncs s) p = k.keeps_sync.kept s p
    step-Kept (closes s) p = k.keeps_close.kept s p
    step-Kept (releases s) p = k.keeps_release.kept s p

    pub reaches-Kept : {s t : S} → Reaches s t → P s → P t
    reaches-Kept (here s) p = p
    reaches-Kept (there x r) p = reaches-Kept r (step-Kept x p)
