-- ===== src/Base/Effects.antt =====
-- Go functions that change a state and may return an error. What was written before the error
-- stays written, so the state comes back beside it.
use Prim.Native.String.{String}
use mathlib.Core.Path.{◌≡◌, refl, ap}
use mathlib.Core.Logic.{◌⊎◌, inl, inr}

-- The sentinel errors that the code compares with, and the errors that it formats, by the
-- constant text of their format.
pub data Err : Type 0 where
  object_not_found object_exists : Err
  iterator_done canceled deadline_exceeded : Err
  not_exist exist file_closed bad_handle eof io : Err
  message : String → Err

-- (value, error): exactly one of the two is there
pub data Outcome {ℓ} (A : Type ℓ) : Type ℓ where
  ok : A → Outcome A
  fail : Err → Outcome A

abbrev pub Act {ℓ κ} : Type ℓ → Type κ → Type (ℓ ⊔ κ)
Act S A = S → Outcome A × S

module _ {ℓ κ} {S : Type ℓ} {A : Type κ} where
  abbrev pub return : A → Act S A
  return a s = (ok a, s)

  abbrev pub throw : Err → Act S A
  throw e s = (fail e, s)

  -- The outcome as a value: `v, err := m()`.
  abbrev pub attempt : Act S A → Act S (Outcome A)
  attempt m s = let (r, s') = m s in (ok r, s')

  -- A result that needs no state.
  abbrev pub settle : Outcome A → Act S A
  settle r s = (r, s)

module _ {ℓ κ ι} {S : Type ℓ} {T : Type κ} {A : Type ι} where
  -- An action on one part of a state of two parts.
  abbrev pub on_first : Act S A → Act (S × T) A
  on_first m (s, t) = let (r, s') = m s in (r, (s', t))

  abbrev pub on_second : Act T A → Act (S × T) A
  on_second m (s, t) = let (r, t') = m t in (r, (s, t'))

  pub on_first-eq-ok :
      (m : Act S A) (s : S) (t : T) {a : A} {w : S × T}
      → on_first m (s, t) ≡ (ok a, w)
      → m s ≡ (ok a, w.0)
  on_first-eq-ok m s t h = cc

  pub on_second-eq-ok :
      (m : Act T A) (s : S) (t : T) {a : A} {w : S × T}
      → on_second m (s, t) ≡ (ok a, w)
      → m t ≡ (ok a, w.1)
  on_second-eq-ok m s t h = cc

module _ {ℓ κ ι} {S : Type ℓ} {A : Type κ} {B : Type ι} where
  abbrev pub proceed : (A → Act S B) → Outcome A × S → Outcome B × S
  proceed f (ok a, s) = f a s
  proceed f (fail e, s) = (fail e, s)

  infixl 5 ◌>>=◌
  abbrev pub ◌>>=◌ : Act S A → (A → Act S B) → Act S B
  ◌>>=◌ m f s = proceed f (m s)

infixl 5 ◌>>◌
abbrev pub ◌>>◌ {ℓ κ} : {S : Type ℓ} {B : Type κ} → Act S (Unit {0}) → Act S B → Act S B
m >> k = m >>= λ _. k

module _ {ℓ κ ι} {S : Type ℓ} {A : Type κ} {B : Type ι} where
  -- `defer cleanup()`: the cleanup runs at the end, whatever that is, and its own result is dropped.
  abbrev pub deferring : Act S B → Act S A → Act S A
  deferring cleanup m s = let (r, t) = m s in (r, (cleanup t).1)

  returned-eq-ok :
      (f : A → B) (x : Outcome A × S) {b : B} {t : S}
      → proceed (λ a s. (ok (f a), s)) x ≡ (ok b, t)
      → (a : A) × (x ≡ (ok a, t)) × (f a ≡ b)
  returned-eq-ok f (ok a, s) h = (a, cc, cc)
  returned-eq-ok f (fail e, s) h = cc

  -- A value that is turned into another
  abbrev pub mapped : (A → B) → Act S A → Act S B
  mapped f m = m >>= λ a s. (ok (f a), s)

  pub mapped-eq-ok :
      (f : A → B) (m : Act S A) (s : S) {b : B} {t : S}
      → mapped f m s ≡ (ok b, t)
      → (a : A) × (m s ≡ (ok a, t)) × (f a ≡ b)
  mapped-eq-ok f m s h = returned-eq-ok f (m s) h

  -- A step that ended well went on from a step that ended well.
  pub proceed-eq-ok :
      (f : A → Act S B) (x : Outcome A × S) {b : B} {t : S}
      → proceed f x ≡ (ok b, t)
      → (a : A) × (s : S) × (x ≡ (ok a, s)) × (f a s ≡ (ok b, t))
  proceed-eq-ok f (ok a, s) h = (a, s, refl, h)
  proceed-eq-ok f (fail e, s) h = cc

  pub settle-eq-ok :
      (f : A → Act S B) (r : Outcome A) (s : S) {b : B} {t : S}
      → proceed f (r, s) ≡ (ok b, t)
      → (a : A) × (r ≡ ok a) × (f a s ≡ (ok b, t))
  settle-eq-ok f (ok a) s h = (a, refl, h)
  settle-eq-ok f (fail e) s h = cc

  pub proceed-ok :
      (f : A → Act S B) (x : Outcome A × S) (a : A) → x.0 ≡ ok a → proceed f x ≡ f a x.1
  proceed-ok f (ok b, s) a h = ap (λ c. f c s) (cc)
  proceed-ok f (fail e, s) a h = cc

module _ {ℓ κ} {S : Type ℓ} {A : Type κ} where
  -- A call whose error is dropped.
  abbrev pub quietly : Act S A → Act S (Unit {0})
  quietly m s = (ok tt, (m s).1)

  abbrev pub described : String → Outcome A × S → Outcome A × S
  described text (ok a, s) = (ok a, s)
  described text (fail e, s) = (fail (message text), s)

  -- An error is returned as `fmt.Errorf` of a text.
  abbrev pub describing : String → Act S A → Act S A
  describing text m s = described text (m s)

  pub described-eq-ok :
      (text : String) (x : Outcome A × S) (a : A) (s : S)
      → described text x ≡ (ok a, s)
      → x ≡ (ok a, s)
  described-eq-ok text (ok b, s') a s e = e
  described-eq-ok text (fail y, s') a s e = cc

  pub Outcome-cases :
      (x : Outcome A × S)
      → ((a : A) × (s : S) × (x ≡ (ok a, s))) ⊎ ((e : Err) × (s : S) × (x ≡ (fail e, s)))
  Outcome-cases (ok a, s) = inl (a, s, refl)
  Outcome-cases (fail e, s) = inr (e, s, refl)
