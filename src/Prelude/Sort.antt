-- ===== src/Prelude/Sort.antt =====
-- Python's `sorted(xs, key=…)`: stable, here as an insertion sort.
use mathlib.Core.Bool.{Bool, true, false}
use mathlib.Core.List.{List, [], ◌∷◌}
use vision_app_creator.Prelude.Lists.{All}
use vision_app_creator.Prelude.Tests.{if◌then◌else◌}

-- `lt x y` is `key(x) < key(y)`.
module _ {ℓ} {A : Type ℓ} (lt : A → A → Bool) where
  unfoldable pub insert_by : A → List A → List A
  insert_by x [] = x ∷ []
  insert_by x (y ∷ ys) = if lt y x then y ∷ insert_by x ys else x ∷ y ∷ ys

  unfoldable pub sort_by : List A → List A
  unfolding insert_by
  sort_by [] = []
  sort_by (x ∷ xs) = insert_by x (sort_by xs)

module _ {ℓ κ} {A : Type ℓ} (lt : A → A → Bool) (P : A → Type κ) where
  insert_by-All : (x : A) (ys : List A) → P x → All P ys → All P (insert_by lt x ys)
  unfolding insert_by
  insert_by-All x [] p h = (p, tt)
  insert_by-All x (y ∷ ys) p h =
      elim (lt y x) as (λ b. All P (if b then y ∷ insert_by lt x ys else x ∷ y ∷ ys)) [
        | true ↦ (h.0, insert_by-All x ys p h.1)
        | false ↦ (p, h)
      ]

  pub sort_by-All : (xs : List A) → All P xs → All P (sort_by lt xs)
  unfolding sort_by
  sort_by-All [] h = h
  sort_by-All (x ∷ xs) h = insert_by-All x (sort_by lt xs) h.0 (sort_by-All xs h.1)

  All-insert_by : (x : A) (ys : List A) → All P (insert_by lt x ys) → P x × All P ys
  unfolding insert_by
  All-insert_by x [] h = h
  All-insert_by x (y ∷ ys) h =
      (elim (lt y x)
          as (λ b. All P (if b then y ∷ insert_by lt x ys else x ∷ y ∷ ys) → P x × All P (y ∷ ys)) [
            | true ↦ λ k. let (p, q) = All-insert_by x ys k.1 in (p, (k.0, q))
            | false ↦ λ k. k
          ])
        h

  pub All-sort_by : (xs : List A) → All P (sort_by lt xs) → All P xs
  unfolding sort_by
  All-sort_by [] h = h
  All-sort_by (x ∷ xs) h = let (p, q) = All-insert_by x (sort_by lt xs) h in (p, All-sort_by xs q)
