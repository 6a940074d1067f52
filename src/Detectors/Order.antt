-- ===== src/Detectors/Order.antt =====
-- reference-detectors/evaluate.ts: the order of sequenced entries, and the sort by it.
use Prim.Native.Nat.{Ordering}
use governed_learning_loop.Prelude.{
  ℕ, String, Bool, true, false, not, ◌&&◌, ◌||◌, List, [], ◌∷◌, ◌++◌, any, ltb, if◌then◌else◌, ◌==◌,
  String_eq, ℕ_eq,
}
use governed_learning_loop.Diagnostics.{Result, throw_if}
use governed_learning_loop.Json.{Runtime}
use governed_learning_loop.Detectors.{result_invalid}

-- What a sequenced entry is ordered by.
pub record Sequenced {ℓ} (A : Type ℓ) : Type ℓ where
  pub episode_id : A → String
  pub sequence : A → ℕ
  pub record_id : A → String

module _ (rt : Runtime) where
  -- `compareText(left, right) < 0` and so on.
  unfoldable pub compare_text : String → String → Ordering
  compare_text left right =
      if rt.before left right
      then Ordering.lt
      else if rt.before right left
      then Ordering.gt
      else Ordering.eq

  -- `set.add(text)`, on the texts in the order in which they were added.
  abbrev pub add_text : List String → String → List String
  add_text texts text = if any (λ t. t == text) texts then texts else texts ++ text ∷ []

  abbrev pub add_texts : List String → List String → List String
  add_texts texts [] = texts
  add_texts texts (t ∷ ts) = add_texts (add_text texts t) ts

  abbrev insert_text : String → List String → List String
  insert_text text [] = text ∷ []
  insert_text text (t ∷ ts) =
      let later = t ∷ insert_text text ts in if rt.before t text then later else text ∷ t ∷ ts

  -- `set.sort(compareText)`
  abbrev pub sort_texts : List String → List String
  sort_texts [] = []
  sort_texts (t ∷ ts) = insert_text t (sort_texts ts)

  -- `[...new Set(texts)].sort(compareText)`
  unfoldable pub sorted_set : List String → List String
  sorted_set texts = sort_texts (add_texts [] texts)

  module _ {ℓ} {A : Type ℓ} (q : Sequenced A) where
    abbrev not_after : Ordering → Bool → Bool
    not_after Ordering.lt rest = true
    not_after Ordering.gt rest = false
    not_after Ordering.eq rest = rest

    abbrev not_gt : Ordering → Bool
    not_gt Ordering.gt = false
    not_gt _ = true

    -- `compareSequenced(left, right) <= 0`
    unfoldable pub comes_first : A → A → Bool
    unfolding compare_text
    comes_first left right = not_after (compare_text (q.episode_id left) (q.episode_id right)) (
        if not (q.sequence left == q.sequence right)
        then ltb (q.sequence left) (q.sequence right)
        else not_gt (compare_text (q.record_id left) (q.record_id right)))

    unfoldable pub insert_sequenced : A → List A → List A
    insert_sequenced x [] = x ∷ []
    insert_sequenced x (y ∷ ys) =
        let later = y ∷ insert_sequenced x ys in if comes_first x y then x ∷ y ∷ ys else later

    -- `entries.sort(compareSequenced)`, which is stable.
    unfoldable pub sort_sequenced : List A → List A
    unfolding insert_sequenced comes_first
    sort_sequenced [] = []
    sort_sequenced (x ∷ xs) = insert_sequenced x (sort_sequenced xs)

  module _ {ℓ} {A : Type ℓ} (q : Sequenced A) where
    abbrev same_position : A → A → Bool
    same_position a b = q.episode_id a == q.episode_id b && q.sequence a == q.sequence b

    -- The loop of `assertUniqueSequences`, with the entries seen.
    abbrev has_repeated_position : List A → List A → Bool
    has_repeated_position seen [] = false
    has_repeated_position seen (x ∷ xs) =
        any (same_position x) seen || has_repeated_position (x ∷ seen) xs

    unfoldable pub assert_unique_sequences : List A → Result (Unit {0})
    assert_unique_sequences entries = throw_if (has_repeated_position [] entries) result_invalid
