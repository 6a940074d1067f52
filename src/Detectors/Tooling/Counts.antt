-- ===== src/Detectors/Tooling/Counts.antt =====
-- The counts of `evaluateTooling` against the number of times that a key occurs.
use governed_learning_loop.Prelude.{
  ℕ, String, ◌+◌, ◌*◌, ◌/◌, ◌≤◌, ◌≡◌, ◌↔◌, ◌⊎◌, inl, inr, refl, sym, ◌∙◌, Bool, true, false, List,
  [], ◌∷◌, length, arith, ltb, if◌then◌else◌, ◌==◌, String_eq, eq_iff, Bool-cases,
}
use native.Mathlib.Nat.{le-div_iff_mul-le}
use governed_learning_loop.Detectors.Polling.{OperationEntry}
use governed_learning_loop.Detectors.{negative_draft, positive_draft}
use governed_learning_loop.Detectors.Tooling.{
  ToolingPolicy, count_key, count_keys, largest, tooling_draft, signatures, classes,
}

-- How often a key occurs.
unfoldable pub occurrences : String → List String → ℕ
occurrences key [] = 0
occurrences key (k ∷ keys) = let rest = occurrences key keys in if k == key then rest + 1 else rest

-- `counts.get(key) ?? 0`
abbrev get_count : String → List (String × ℕ) → ℕ
get_count key [] = 0
get_count key ((k, n) ∷ counts) = let rest = get_count key counts in if k == key then n else rest

get_count-count_key :
    (j key : String) (counts : List (String × ℕ))
    → get_count j (count_key key counts)
      ≡ (if key == j then get_count j counts + 1 else get_count j counts)
unfolding count_key
get_count-count_key j key [] = ground (arith, eq_iff key j)
get_count-count_key j key ((k, n) ∷ counts) =
    ground (arith, eq_iff key j, eq_iff k j, eq_iff k key, get_count-count_key j key counts)

get_count-count_keys :
    (j : String) (keys : List String) (counts : List (String × ℕ))
    → get_count j (count_keys keys counts) ≡ get_count j counts + occurrences j keys
unfolding count_keys occurrences
get_count-count_keys j [] counts = omega arith
get_count-count_keys j (key ∷ keys) counts =
    ground
      (arith, get_count-count_keys j keys (count_key key counts), get_count-count_key j key counts)

get_count-le_largest :
    (j : String) (counts : List (String × ℕ)) → get_count j counts ≤ largest counts
unfolding largest
get_count-le_largest j [] = omega arith
get_count-le_largest j ((k, n) ∷ counts) = ground (arith, get_count-le_largest j counts)

abbrev has_key : String → List (String × ℕ) → Bool
has_key key [] = false
has_key key ((k, n) ∷ counts) = let rest = has_key key counts in if k == key then true else rest

-- No key stands twice.
abbrev IsMap : List (String × ℕ) → Type 0
IsMap [] = Unit
IsMap ((k, n) ∷ counts) = (has_key k counts ≡ false) × IsMap counts

has_key-count_key :
    (j key : String) (counts : List (String × ℕ))
    → has_key j (count_key key counts) ≡ (if key == j then true else has_key j counts)
unfolding count_key
has_key-count_key j key [] = refl
has_key-count_key j key ((k, n) ∷ counts) =
    ground (arith, eq_iff key j, eq_iff k j, eq_iff k key, has_key-count_key j key counts)

count_key-IsMap :
    (key : String) (counts : List (String × ℕ)) → IsMap counts → IsMap (count_key key counts)
unfolding count_key
count_key-IsMap key [] h = (refl, tt)
count_key-IsMap key ((k, n) ∷ counts) h = ground (
  arith,
  eq_iff key k,
  eq_iff k key,
  has_key-count_key k key counts,
  count_key-IsMap key counts h.1,
)

count_keys-IsMap :
    (keys : List String) (counts : List (String × ℕ))
    → IsMap counts
    → IsMap (count_keys keys counts)
unfolding count_keys
count_keys-IsMap [] counts h = h
count_keys-IsMap (key ∷ keys) counts h =
    count_keys-IsMap keys (count_key key counts) (count_key-IsMap key counts h)

get_count-absent :
    (key : String) (counts : List (String × ℕ))
    → has_key key counts ≡ false
    → get_count key counts ≡ 0
get_count-absent key [] h = refl
get_count-absent key ((k, n) ∷ counts) h = ground (arith, get_count-absent key counts)

-- Some key has the largest count.
largest-reached :
    (counts : List (String × ℕ))
    → IsMap counts
    → (k : String) × (get_count k counts ≡ largest counts)
unfolding largest
largest-reached [] h = ("", refl)
largest-reached ((k, n) ∷ counts) h = elim (Bool-cases (ltb (largest counts) n)) [
  | inl e ↦ (k, ground (arith, eq_iff k k))
  | inr e ↦
      let (j, f) = largest-reached counts h.1 in
      elim (Bool-cases (k == j)) [
        | inl same ↦ (k, ground (arith, eq_iff k j, eq_iff k k, get_count-absent k counts h.0))
        | inr other ↦ (j, ground (arith, eq_iff k j))
      ]
]

counted : (j : String) (keys : List String) → get_count j (count_keys keys []) ≡ occurrences j keys
counted j keys = omega (arith, get_count-count_keys j keys [])

occurrences-le_largest :
    (j : String) (keys : List String) → occurrences j keys ≤ largest (count_keys keys [])
occurrences-le_largest j keys =
    omega (arith, counted j keys, get_count-le_largest j (count_keys keys []))

most_frequent :
    (keys : List String) → (k : String) × (occurrences k keys ≡ largest (count_keys keys []))
most_frequent keys =
    let (k, e) = largest-reached (count_keys keys []) (count_keys-IsMap keys [] tt) in
    (k, sym (counted k keys) ∙ e)

-- The two alternatives of the detected condition, on the counts of keys and on the largest count.
module _ (keys : List String) where
  reaches_iff :
      (m : ℕ) → (m ≤ largest (count_keys keys [])) ↔ ((k : String) × (m ≤ occurrences k keys))
  reaches_iff m = (
    λ h. let (k, e) = most_frequent keys in (k, omega (arith, h, e)),
    λ (k, h). omega (arith, h, occurrences-le_largest k keys),
  )

  share_iff :
      (d n : ℕ)
      → 1 ≤ n
      → (d ≤ largest (count_keys keys []) * 10000 / n)
        ↔ ((k : String) × (d * n ≤ occurrences k keys * 10000))
  share_iff d n p = (
    λ h.
        let (k, e) = most_frequent keys in
        (
          k,
          omega (
            arith,
            (le-div_iff_mul-le {k = n} {x = d} {y = largest (count_keys keys []) * 10000} p).0 h,
            e,
          ),
        ),
    λ (k, h).
        (le-div_iff_mul-le {k = n} {x = d} {y = largest (count_keys keys []) * 10000} p).1
          (omega (arith, h, occurrences-le_largest k keys)),
  )

-- A policy with a positive minimum of operations detects its condition exactly when there are that
-- many eligible tool operations and, among them, some signature occurs at least the minimum number
-- of times or some operation class has at least the configured share, in basis points.
pub tooling_detects_iff :
    (policy : ToolingPolicy) (tools : List OperationEntry)
    → 1 ≤ policy.minimum_completed_operations
    → ((tooling_draft policy tools).condition_detected ≡ true) ↔ (
        (policy.minimum_completed_operations ≤ length tools)
        × (((s : String) × (policy.minimum_repeated_signature_count
                ≤ occurrences s (signatures tools)))
            ⊎ ((c : String) × (policy.dominant_operation_class_basis_points * length tools
                  ≤ occurrences c (classes tools) * 10000))))
unfolding tooling_draft positive_draft negative_draft
tooling_detects_iff policy tools p = (
  λ d. (
    enough d,
    elim (either d) [
      | inl h ↦ inl ((reaches_iff (signatures tools) _).0 h)
      | inr h ↦ inr ((share (enough d)).0 h)
    ],
  ),
  λ (n, e). elim e [
    | inl h ↦ detected n (inl ((reaches_iff (signatures tools) _).1 h))
    | inr h ↦ detected n (inr ((share n).1 h))
  ],
)
  where
    repeated : ℕ
    repeated = largest (count_keys (signatures tools) [])

    dominant : ℕ
    dominant = largest (count_keys (classes tools) []) * 10000 / length tools

    share :
        policy.minimum_completed_operations ≤ length tools
        → (policy.dominant_operation_class_basis_points ≤ dominant) ↔ (
            (c : String) × (policy.dominant_operation_class_basis_points * length tools
              ≤ occurrences c (classes tools) * 10000))
    share n =
        share_iff (classes tools) policy.dominant_operation_class_basis_points (length tools)
          (omega (arith, n, p))

    enough :
        (tooling_draft policy tools).condition_detected ≡ true
        → policy.minimum_completed_operations ≤ length tools
    enough d = ground arith

    either :
        (tooling_draft policy tools).condition_detected ≡ true
        → (policy.minimum_repeated_signature_count ≤ repeated)
          ⊎ (policy.dominant_operation_class_basis_points ≤ dominant)
    either d = ground arith

    detected :
        policy.minimum_completed_operations ≤ length tools
        → (policy.minimum_repeated_signature_count ≤ repeated)
          ⊎ (policy.dominant_operation_class_basis_points ≤ dominant)
        → (tooling_draft policy tools).condition_detected ≡ true
    detected n e = ground arith
