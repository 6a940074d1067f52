-- ===== src/Detectors/Coordination/Fuel.antt =====
-- The loops that follow parents end: each turn visits an entry of the map that it has not visited.
use governed_learning_loop.Prelude.{
  ℕ, zero, suc, String, ◌+◌, ◌≤◌, ◌<◌, ◌≡◌, refl, Bool, true, false, Option, none, some, List, [],
  ◌∷◌, ◌++◌, length, arith, if◌then◌else◌, ◌==◌, String_eq, eq_iff, Bool-cases, inl, inr,
}
use governed_learning_loop.Detectors.Coordination.{
  Parents, has_parent_entry, parent_of, is_in, walk, walk_at, count_cycles, cycle_count, visit,
  depth_from, depth_from_root,
}

-- How many entries of the map are not among the visited ids.
abbrev unvisited : List String → Parents → ℕ
unvisited seen [] = 0
unvisited seen ((k, p) ∷ parents) =
    let rest = unvisited seen parents in if is_in k seen then rest else rest + 1

unvisited-le_length :
    (seen : List String) (parents : Parents) → unvisited seen parents ≤ length parents
unvisited-le_length seen [] = omega arith
unvisited-le_length seen ((k, p) ∷ parents) = ground (arith, unvisited-le_length seen parents)

unvisited-le :
    (c : String) (seen : List String) (parents : Parents)
    → unvisited (c ∷ seen) parents ≤ unvisited seen parents
unvisited-le c seen [] = omega arith
unvisited-le c seen ((k, p) ∷ parents) = ground (arith, unvisited-le c seen parents)

unvisited-lt :
    (c : String) (seen : List String) (parents : Parents)
    → has_parent_entry c parents ≡ true
    → is_in c seen ≡ false
    → unvisited (c ∷ seen) parents < unvisited seen parents
unvisited-lt c seen [] h n = cc
unvisited-lt c seen ((k, p) ∷ parents) h n = elim (Bool-cases (k == c)) [
  | inl e ↦ ground (arith, eq_iff k c, eq_iff c k, unvisited-le c seen parents)
  | inr e ↦ ground (arith, eq_iff k c, eq_iff c k, unvisited-lt c seen parents)
]

abbrev Returns {ℓ} : {A : Type ℓ} → Option A → Type ℓ
Returns {A} o = (a : A) × (o ≡ some a)

walk_at-Returns :
    (go : Option String → List String → Option (List String × Bool)) (parents : Parents)
    (completed path : List String) (current : String)
    → (has_parent_entry current parents ≡ true
        → is_in current path ≡ false
        → Returns (go (parent_of current parents) (current ∷ path)))
    → Returns (walk_at go parents completed path current)
unfolding walk_at
walk_at-Returns go parents completed path current h =
    elim (Bool-cases (has_parent_entry current parents)) [
      | inr e ↦ rw e ((path, false), refl)
      | inl e ↦ elim (Bool-cases (is_in current completed)) [
        | inl done ↦ rw (e, done) ((path, false), refl)
        | inr live ↦ elim (Bool-cases (is_in current path)) [
          | inl back ↦ rw (e, live, back) ((path, true), refl)
          | inr new ↦ rw (e, live, new) (h e new)
        ]
      ]
    ]

walk-Returns :
    (fuel : ℕ) (parents : Parents) (completed : List String) (current : Option String)
    (path : List String)
    → unvisited path parents < fuel
    → Returns (walk fuel parents completed current path)
unfolding walk
walk-Returns zero parents completed current path h = absurd (omega (arith, h))
walk-Returns (suc fuel) parents completed none path h = ((path, false), refl)
walk-Returns (suc fuel) parents completed (some current) path h =
    walk_at-Returns (walk fuel parents completed) parents completed path current λ e f.
      walk-Returns fuel parents completed (parent_of current parents) (current ∷ path)
        (omega (arith, h, unvisited-lt current path parents e f))

visit-Returns :
    (fuel : ℕ) (parents : Parents) (start : String) (cycles : ℕ) (completed : List String)
    → length parents < fuel
    → Returns (visit fuel parents start cycles completed)
visit-Returns fuel parents start cycles completed h = elim (Bool-cases (is_in start completed)) [
  | inl e ↦ rw e ((cycles, completed), refl)
  | inr e ↦
      let (r, f) =
        walk-Returns fuel parents completed (some start) []
          (omega (arith, h, unvisited-le_length [] parents)) in
      rw (e, f) (((if r.1 then cycles + 1 else cycles), r.0 ++ completed), refl)
]

count_cycles-Returns :
    (fuel : ℕ) (parents starts : Parents) (cycles : ℕ) (completed : List String)
    → length parents < fuel
    → Returns (count_cycles fuel parents starts cycles completed)
unfolding count_cycles
count_cycles-Returns fuel parents [] cycles completed h = (cycles, refl)
count_cycles-Returns fuel parents ((start, p) ∷ starts) cycles completed h =
    let (r, e) = visit-Returns fuel parents start cycles completed h in
    rw e (count_cycles-Returns fuel parents starts r.0 r.1 h)

-- Whatever the parents are, cycles included, the walks of the cycle count end within one more turn
-- than the map has entries, so that the count is returned.
pub cycle_count-returns : (parents : Parents) → (n : ℕ) × (cycle_count parents ≡ some n)
unfolding cycle_count
cycle_count-returns parents =
    count_cycles-Returns (length parents + 1) parents parents 0 [] (omega arith)

parent_of-absent :
    (c : String) (parents : Parents)
    → has_parent_entry c parents ≡ false
    → parent_of c parents ≡ none
parent_of-absent c [] h = refl
parent_of-absent c ((k, p) ∷ parents) h = ground (arith, parent_of-absent c parents)

depth_from-Returns :
    (fuel : ℕ) (parents : Parents) (root : String) (current : Option String) (seen : List String)
    (depth : ℕ)
    → unvisited seen parents + 1 < fuel
    → Returns (depth_from fuel parents root current seen depth)
unfolding depth_from
depth_from-Returns zero parents root current seen depth h = absurd (omega (arith, h))
depth_from-Returns (suc fuel) parents root none seen depth h = (none, refl)
depth_from-Returns (suc zero) parents root (some current) seen depth h = absurd (omega (arith, h))
depth_from-Returns (suc (suc fuel)) parents root (some current) seen depth h =
    elim (Bool-cases (current == root)) [
      | inl e ↦ rw e (some depth, refl)
      | inr e ↦ elim (Bool-cases (is_in current seen)) [
        | inl f ↦ rw (e, f) (none, refl)
        | inr f ↦ elim (Bool-cases (has_parent_entry current parents)) [
          | inl k ↦
              rw (e, f)
                (depth_from-Returns (suc fuel) parents root (parent_of current parents)
                  (current ∷ seen) (depth + 1)
                  (omega (arith, h, unvisited-lt current seen parents k f)))
          | inr k ↦ rw (e, f, parent_of-absent current parents k) (none, refl)
        ]
      ]
    ]

-- Whatever the parents are, the climb of `depthFromRoot` from an episode ends within two more turns
-- than the map has entries: at the root with a depth, or with nothing.
pub depth_from_root-returns :
    (parents : Parents) (root id : String)
    → (r : Option ℕ) × (depth_from_root parents root id ≡ some r)
unfolding depth_from_root
depth_from_root-returns parents root id =
    depth_from-Returns (length parents + 2) parents root (some id) [] 0
      (omega (arith, unvisited-le_length [] parents))
