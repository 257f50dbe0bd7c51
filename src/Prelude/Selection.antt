-- ===== src/Prelude/Selection.antt =====
-- What a query reads from a table: the rows that meet a condition, in an order.
use mathlib.Core.Path.{◌≡◌}
use mathlib.Core.Bool.{Bool, true}
use mathlib.Core.List.{List, [], ◌∷◌}
use mathlib.Core.Logic.{◌↔◌, inl, inr}
use qwen_harness_bridge.Prelude.Tests.{Bool-cases}
use qwen_harness_bridge.Prelude.Lists.{select, All}
use native.Mathlib.Omega.{arith}

-- The second list holds the rows of the first that meet the condition, and no others.
pub data Chosen {A : Type 0} (P : A → Type 0) : List A → List A → Type 0 where
  none_left : Chosen P [] []
  taken : {x : A} {xs ys : List A} → P x → Chosen P xs ys → Chosen P (x ∷ xs) (x ∷ ys)
  passed : {x : A} {xs ys : List A} → ¬ P x → Chosen P xs ys → Chosen P (x ∷ xs) ys

-- Every row stands in the relation to each row that follows it.
abbrev pub IsSorted : {A : Type 0} → (A → A → Type 0) → List A → Type 0
IsSorted R [] = Unit
IsSorted R (x ∷ xs) = All (R x) xs × IsSorted R xs

module _ {A : Type 0} where
  pub select-Chosen :
      (P : A → Type 0) (p : A → Bool)
      → ((x : A) → (p x ≡ true) ↔ P x)
      → (xs : List A) → Chosen P xs (select p xs)
  unfolding select
  select-Chosen P p same [] = none_left
  select-Chosen P p same (x ∷ xs) = elim (Bool-cases (p x)) [
    | inl e ↦ rw e (taken ((same x).0 e) (select-Chosen P p same xs))
    | inr e ↦ rw e (passed (λ h. absurd (ground (arith, (same x).1 h))) (select-Chosen P p same xs))
  ]

  pub All-weaken : {P Q : A → Type 0} → ((x : A) → P x → Q x) → (xs : List A) → All P xs → All Q xs
  All-weaken h [] a = tt
  All-weaken h (x ∷ xs) a = (h x a.0, All-weaken h xs a.1)
