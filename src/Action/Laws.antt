-- ===== src/Action/Laws.antt =====
-- Rules for actions: what they yield, and that they reach the store by calls alone.
use governed_learning_loop.Prelude.{ℕ, ◌≡◌, refl, ap, sym, ◌∙◌, List, [], ◌∷◌, ◌++◌}
use governed_learning_loop.Diagnostics.{
  Result, ok, throw, LearningLoopError, Ensures, returns, throws,
}
use governed_learning_loop.Json.{Runtime}
use governed_learning_loop.Store.{RecordKey, MemoryStore, Call, call}
use governed_learning_loop.Store.Runs.{run}
use governed_learning_loop.Action.{
  World, Action, continue, ◌>>=◌, ◌>>◌, lift, interfere, take_turn, store_get, store_call,
  read_clock,
}

-- What holds of the value and of the world that it is returned in, if one is returned.
pub data Yields {ℓ κ} {A : Type ℓ} (P : A → World → Type κ) : Result A × World → Type (ℓ ⊔ κ) where
  returned : (a : A) (w : World) → P a w → Yields P (ok a, w)
  threw : (e : LearningLoopError) (w : World) → Yields P (throw e, w)

pub Yields-bind {ℓ κ ι} :
    {A B : Type ℓ} {Q : A → World → Type κ} {P : B → World → Type ι} (m : Action A)
    (f : A → Action B) (w : World)
    → Yields Q (m w)
    → ((a : A) (v : World) → Q a v → Yields P (f a v))
    → Yields P ((m >>= f) w)
unfolding ◌>>=◌
Yields-bind {A} {B} {Q} {P} m f w y k = follow (m w) y
  where
    follow : (r : Result A × World) → Yields Q r → Yields P (continue r.0 f r.1)
    follow r (returned a v q) = k a v q
    follow r (threw e v) = threw e v

pub Yields-map {ℓ κ ι} :
    {A : Type ℓ} {Q : A → World → Type κ} {P : A → World → Type ι} {r : Result A × World}
    → Yields Q r
    → ((a : A) (v : World) → Q a v → P a v)
    → Yields P r
Yields-map (returned a v q) k = returned a v (k a v q)
Yields-map (threw e v) k = threw e v

pub Yields-lift {ℓ κ} :
    {A : Type ℓ} {P : A → Type κ} (r : Result A) (w : World)
    → Ensures P r
    → Yields (λ a v. P a × (v ≡ w)) (lift r w)
Yields-lift r w (returns a p) = returned a w (p, refl)
Yields-lift r w (throws e) = threw e w

-- One store comes from another by calls, of whatever writers.
pub record Later (s t : MemoryStore) : Type 0 where
  pub calls : List Call
  pub runs : t ≡ run calls s

pub Later-refl : (s : MemoryStore) → Later s s
unfolding run
Later-refl s = record { calls = []; runs = refl }

pub run-append : (xs ys : List Call) (s : MemoryStore) → run (xs ++ ys) s ≡ run ys (run xs s)
unfolding run
run-append [] ys s = refl
run-append (c ∷ xs) ys s = run-append xs ys (call c s).0

pub Later-trans : {s t u : MemoryStore} → Later s t → Later t u → Later s u
Later-trans {s} p q = record {
  calls = p.calls ++ q.calls;
  runs = q.runs ∙ (ap (run q.calls) p.runs ∙ sym (run-append p.calls q.calls s));
}

pub Later-call : (c : Call) (s : MemoryStore) → Later s (call c s).0
unfolding run
Later-call c s = record { calls = c ∷ []; runs = refl }

take_turn-Later :
    (batches : List (List Call)) (w : World) → Later w.store (take_turn batches w).store
take_turn-Later [] w = Later-refl w.store
take_turn-Later (calls ∷ rest) w = record { calls = calls; runs = refl }

pub interfere-Later : (w : World) → Later w.store (interfere w).store
unfolding interfere
interfere-Later w = take_turn-Later w.others w

-- An action that changes the store by calls alone.
pub record Moves {ℓ} {A : Type ℓ} (m : Action A) : Type ℓ where
  pub at : (w : World) → Later w.store (m w).1.store

pub Moves-lift {ℓ} : {A : Type ℓ} (r : Result A) → Moves (lift r)
Moves-lift r = record { at = λ w. Later-refl w.store }

pub Moves-clock {ℓ} : {A : Type ℓ} (clock : ℕ → A) → Moves (read_clock clock)
unfolding read_clock
Moves-clock clock = record { at = λ w. Later-refl w.store }

pub Moves-get : (rt : Runtime) (key : RecordKey) → Moves (store_get rt key)
unfolding store_get
Moves-get rt key = record { at = interfere-Later }

pub Moves-call : (c : Call) → Moves (store_call c)
unfolding store_call
Moves-call c = record {
  at = λ w. Later-trans (interfere-Later w) (Later-call c (interfere w).store);
}

module _ {ℓ} {A B : Type ℓ} where
  continue-Later :
      (r : Result A) (f : A → Action B) (w : World)
      → ((a : A) → Moves (f a))
      → Later w.store (continue r f w).1.store
  unfolding continue
  continue-Later (ok a) f w h = (h a).at w
  continue-Later (throw e) f w h = Later-refl w.store

  pub Moves-bind :
      (m : Action A) (f : A → Action B) → Moves m → ((a : A) → Moves (f a)) → Moves (m >>= f)
  unfolding ◌>>=◌
  Moves-bind m f h k = record {
    at = λ w. Later-trans (h.at w) (continue-Later (m w).0 f (m w).1 k);
  }

module _ {ℓ} {B : Type ℓ} where
  pub Moves-then : (m : Action (Unit {0})) (k : Action B) → Moves m → Moves k → Moves (m >> k)
  unfolding ◌>>◌
  Moves-then m k h j = record { at = λ w. Later-trans (h.at w) (then-Later (m w).0 (m w).1) }
    where
      then-Later :
          (r : Result (Unit {0})) (w : World) → Later w.store (continue r (λ _. k) w).1.store
      then-Later (ok a) w = j.at w
      then-Later (throw e) w = Later-refl w.store

-- After an action that moves the store, a later store is later still.
pub Yields-Moves {ℓ κ} :
    {A B : Type ℓ} {P : B → World → Type κ} (start : MemoryStore) (m : Action A) (f : A → Action B)
    (w : World)
    → Moves m
    → Later start w.store
    → ((a : A) (v : World) → Later start v.store → Yields P (f a v))
    → Yields P ((m >>= f) w)
Yields-Moves {A} start m f w h since k =
    Yields-bind m f w (cover (m w) (Later-trans since (h.at w))) k
  where
    cover : (r : Result A × World) → Later start r.1.store → Yields (λ _ v. Later start v.store) r
    cover (ok a, v) l = returned a v l
    cover (throw e, v) l = threw e v

pub ruleset moves_rules = (Moves-lift, Moves-clock, Moves-get, Moves-call, Moves-bind, Moves-then)
