-- ===== src/Diagnostics.antt =====
-- diagnostics.ts: diagnostics, the error that carries them, and code that may throw it.
-- A diagnostic keeps its code and severity; the human-readable text, path and details are left out.
use governed_learning_loop.Prelude.{◌≡◌, refl, String, List, [], ◌∷◌, Bool, true, false}

pub data Severity : Type 0 where
  info warning error : Severity

pub record Diagnostic : Type 0 where
  pub code : String
  pub severity : Severity

pub record LearningLoopError : Type 0 where
  pub code : String
  pub diagnostics : List Diagnostic

-- What a function returns or throws.
pub data Result {ℓ} (A : Type ℓ) : Type ℓ where
  ok : A → Result A
  throw : LearningLoopError → Result A

infixl 5 ◌>>=◌ ◌>>◌
unfoldable pub ◌>>=◌ {ℓ κ} : {A : Type ℓ} {B : Type κ} → Result A → (A → Result B) → Result B
ok value >>= next = next value
throw failed >>= next = throw failed

unfoldable pub ◌>>◌ {ℓ} : {B : Type ℓ} → Result (Unit {0}) → Result B → Result B
unfolding ◌>>=◌
m >> k = m >>= λ _. k

-- `if (refused) throw e;`
abbrev pub throw_if : Bool → LearningLoopError → Result (Unit {0})
throw_if true e = throw e
throw_if false e = ok tt

abbrev pub diagnostic : String → Diagnostic
diagnostic code = record { code = code; severity = error }

-- `new LearningLoopError(code, [{ code, severity: "error", ... }])`
abbrev pub failure : String → LearningLoopError
failure code = record { code = code; diagnostics = diagnostic code ∷ [] }

-- Inversion of a successful bind.
pub >>=-eq-ok {ℓ κ} :
    {A : Type ℓ} {B : Type κ} {b : B} (m : Result A) (f : A → Result B)
    → (m >>= f) ≡ ok b
    → (a : A) × (m ≡ ok a) × (f a ≡ ok b)
unfolding ◌>>=◌
>>=-eq-ok (ok a) f h = (a, refl, h)
>>=-eq-ok (throw e) f h = cc

-- What holds of the value if one is returned.
pub data Ensures {ℓ κ} {A : Type ℓ} (P : A → Type κ) : Result A → Type (ℓ ⊔ κ) where
  returns : (a : A) → P a → Ensures P (ok a)
  throws : (e : LearningLoopError) → Ensures P (throw e)

pub Ensures-bind {ℓ κ ι} :
    {A : Type ℓ} {B : Type ℓ} {Q : A → Type κ} {P : B → Type ι} {m : Result A} {f : A → Result B}
    → Ensures Q m
    → ((a : A) → Q a → Ensures P (f a))
    → Ensures P (m >>= f)
unfolding ◌>>=◌
Ensures-bind (returns a q) k = k a q
Ensures-bind (throws e) k = throws e

-- The value is the one that the call returned.
pub Ensures-call {ℓ} : {A : Type ℓ} (m : Result A) → Ensures (λ a. m ≡ ok a) m
Ensures-call (ok a) = returns a refl
Ensures-call (throw e) = throws e

pub Ensures-guard {ℓ} :
    {B : Type 0} {P : B → Type ℓ} (refused : Bool) (e : LearningLoopError) {k : Result B}
    → (refused ≡ false → Ensures P k)
    → Ensures P (throw_if refused e >> k)
unfolding ◌>>◌
Ensures-guard true e h = throws e
Ensures-guard false e h = h refl

-- The same for a check that returns nothing.
pub Ensures-bind' {ℓ κ} :
    {B : Type 0} {Q : Unit {0} → Type κ} {P : B → Type ℓ} {m : Result (Unit {0})} {k : Result B}
    → Ensures Q m
    → ((a : Unit {0}) → Q a → Ensures P k)
    → Ensures P (m >> k)
unfolding ◌>>◌
Ensures-bind' (returns a q) k = k a q
Ensures-bind' (throws e) k = throws e

pub Ensures-map {ℓ κ ι} :
    {A : Type ℓ} {Q : A → Type κ} {P : A → Type ι} {m : Result A}
    → Ensures Q m
    → ((a : A) → Q a → P a)
    → Ensures P m
Ensures-map (returns a q) k = returns a (k a q)
Ensures-map (throws e) k = throws e

pub of_ensures {ℓ κ} :
    {A : Type ℓ} {P : A → Type κ} {r : Result A} {a : A} → Ensures P r → r ≡ ok a → P a
of_ensures {P} {a} (returns b p) h = let e : b ≡ a = cc in rw e at p
of_ensures (throws e) h = cc
