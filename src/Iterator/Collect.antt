-- ===== src/Iterator/Collect.antt =====
-- ObjectsAll returns what the iterator yields, in order.
use cloudstorage.Base.{
  suc, ◌≡◌, refl, Option, some, List, [], ◌∷◌, ◌++◌, length, Err, iterator_done, Outcome, ok, fail,
  Act,
}
use mathlib.Core.List.{append-nil, append_assoc}
use cloudstorage.Iterator.{collected, collect, objects_all}

-- The outcome that ObjectsAll makes of the objects that were yielded and the error behind them.
abbrev pub gathered {ℓ} : {O : Type ℓ} → List O → Err → Outcome (List O)
gathered objs iterator_done = ok objs
gathered objs e = fail e

module _ {W O : Type 0} where
  -- From a state the iterator yields some objects, then an error, and is left in a last state.
  pub data Yields (next : Act W O) : W → List O → Err → W → Type 0 where
    stop : {w w' : W} {e : Err} → next w ≡ (fail e, w') → Yields next w [] e w'
    more :
        {w v w' : W} {o : O} {objs : List O} {e : Err}
        → next w ≡ (ok o, v)
        → Yields next v objs e w'
        → Yields next w (o ∷ objs) e w'

  collected-fail :
      (again : List O → W → Option (Outcome (List O) × W)) (objs : List O) (e : Err) (w : W)
      → collected again objs (fail e, w) ≡ some (gathered objs e, w)
  unfolding collected
  collected-fail again objs iterator_done w = refl
  collected-fail again objs _ w = refl

  collect-Yields :
      (next : Act W O) {w w' : W} (seen objs : List O) {e : Err}
      → Yields next w objs e w'
      → collect next (suc (length objs)) seen w ≡ some (gathered (seen ++ objs) e, w')
  unfolding collect
  collect-Yields next seen _ (stop {w' = w'} {e = e} h) =
      rw (h, append-nil) (collected-fail (collect next 0) seen e w')
  collect-Yields next seen _ (more {o = o} {objs = objs} h y) =
      rw h (rw append_assoc at (collect-Yields next (seen ++ o ∷ []) objs y))

  -- With fuel for one pass more than there are objects, ObjectsAll returns the objects that the
  -- iterator yields, in order, if the error behind them is Done, and else that error and no objects.
  pub objects_all-Yields :
      (next : Act W O) {w w' : W} (objs : List O) {e : Err}
      → Yields next w objs e w'
      → objects_all next (suc (length objs)) w ≡ some (gathered objs e, w')
  unfolding objects_all
  objects_all-Yields next objs y = collect-Yields next [] objs y
