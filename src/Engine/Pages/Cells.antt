-- ===== src/Engine/Pages/Cells.antt =====
-- engine/context.ts and testing/in-memory-store.ts: cells of a list, and lists whose indexes rise.
use governed_learning_loop.Prelude.{
  ℕ, ◌+◌, ◌≤◌, ◌≡◌, ◌⊎◌, inl, inr, refl, sym, subst, Bool, true, some, List, [], ◌∷◌, ◌++◌, keep,
  last?, Bool-cases,
}
use governed_learning_loop.Store.{RecordKey, Cell, get_cell, same_key}
use governed_learning_loop.Store.Invariant.{IsRising}

-- The cell stands in the list.
pub data In (e : Cell) : List Cell → Type 0 where
  here : {c : Cell} {cells : List Cell} → c ≡ e → In e (c ∷ cells)
  there : {c : Cell} {cells : List Cell} → In e cells → In e (c ∷ cells)

-- The insertion indexes rise along the list, from `lo` on.
abbrev pub RisesFrom : ℕ → List Cell → Type 0
RisesFrom lo [] = Unit
RisesFrom lo (c ∷ cells) = (lo ≤ c.insertion_index) × RisesFrom (c.insertion_index + 1) cells

pub IsRising-RisesFrom : (lo hi : ℕ) (cells : List Cell) → IsRising lo hi cells → RisesFrom lo cells
IsRising-RisesFrom lo hi [] h = tt
IsRising-RisesFrom lo hi (c ∷ cells) h =
    (h.0, IsRising-RisesFrom (c.insertion_index + 1) hi cells h.1)

pub RisesFrom-raise :
    (lo lo' : ℕ) (cells : List Cell)
    → RisesFrom lo cells
    → ((c : Cell) → In c cells → lo' ≤ c.insertion_index)
    → RisesFrom lo' cells
RisesFrom-raise lo lo' [] h low = tt
RisesFrom-raise lo lo' (c ∷ cells) h low = (low c (here refl), h.1)

-- After a part with a last cell comes what lies beyond it.
pub RisesFrom-append :
    (lo : ℕ) (xs ys : List Cell) (c : Cell)
    → RisesFrom lo xs
    → last? xs ≡ some c
    → RisesFrom (c.insertion_index + 1) ys
    → RisesFrom lo (xs ++ ys)
RisesFrom-append lo [] ys c h e k = cc
RisesFrom-append lo (x ∷ []) ys c h e k =
    let same : c ≡ x = cc in
    (h.0, subst (λ (d : Cell). RisesFrom (d.insertion_index + 1) ys) same k)
RisesFrom-append lo (x ∷ y ∷ xs) ys c h e k =
    (h.0, RisesFrom-append (x.insertion_index + 1) (y ∷ xs) ys c h.1 e k)

pub RisesFrom-prefix : (lo : ℕ) (xs ys : List Cell) → RisesFrom lo (xs ++ ys) → RisesFrom lo xs
RisesFrom-prefix lo [] ys h = tt
RisesFrom-prefix lo (x ∷ xs) ys h = (h.0, RisesFrom-prefix (x.insertion_index + 1) xs ys h.1)

pub In-append : {e : Cell} (xs ys : List Cell) → In e (xs ++ ys) → In e xs ⊎ In e ys
In-append [] ys i = inr i
In-append (x ∷ xs) ys (here h) = inl (here h)
In-append (x ∷ xs) ys (there i) = elim (In-append xs ys i) [ inl j ↦ inl (there j) | inr j ↦ inr j ]

pub In-left : {e : Cell} {xs : List Cell} (ys : List Cell) → In e xs → In e (xs ++ ys)
In-left ys (here h) = here h
In-left ys (there i) = there (In-left ys i)

pub In-right : {e : Cell} (xs : List Cell) {ys : List Cell} → In e ys → In e (xs ++ ys)
In-right [] i = i
In-right (x ∷ xs) i = there (In-right xs i)

pub keep-In :
    (p : Cell → Bool) {e : Cell} (cells : List Cell) → In e cells → p e ≡ true → In e (keep p cells)
keep-In p [] i t = elim i [ ]
keep-In p {e} (c ∷ cells) (here h) t =
    let kept : p c ≡ true = subst (λ d. p d ≡ true) (sym h) t in rw kept (here h)
keep-In p {e} (c ∷ cells) (there i) t = elim (Bool-cases (p c)) [
  | inl kept ↦ rw kept (there (keep-In p cells i t))
  | inr left ↦ rw left (keep-In p cells i t)
]

In-kept :
    (p : Cell → Bool) {e c : Cell} {cells : List Cell}
    → p c ≡ true
    → (In e cells → p e ≡ true)
    → In e (c ∷ cells)
    → p e ≡ true
In-kept p t rest (here h) = subst (λ d. p d ≡ true) h t
In-kept p t rest (there i) = rest i

pub In-keep : (p : Cell → Bool) {e : Cell} (cells : List Cell) → In e (keep p cells) → p e ≡ true
In-keep p [] i = elim i [ ]
In-keep p {e} (c ∷ cells) i = elim (Bool-cases (p c)) [
  | inl t ↦ In-kept p t (λ j. In-keep p cells j) (rw t at i)
  | inr f ↦ In-keep p cells (rw f at i)
]

pub get_cell-In :
    (key : RecordKey) (cells : List Cell) {c : Cell} → get_cell key cells ≡ some c → In c cells
unfolding get_cell
get_cell-In key [] h = cc
get_cell-In key (d ∷ cells) {c} h = elim (Bool-cases (same_key d.key key)) [
  | inl t ↦ let found : some d ≡ some c = rw t at h in let same : d ≡ c = cc in here same
  | inr f ↦ there (get_cell-In key cells (rw f at h))
]

pub last?-In : (cells : List Cell) {c : Cell} → last? cells ≡ some c → In c cells
last?-In [] h = cc
last?-In (d ∷ []) {c} h = let same : d ≡ c = cc in here same
last?-In (d ∷ e ∷ cells) h = there (last?-In (e ∷ cells) h)
