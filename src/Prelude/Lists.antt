-- ===== src/Prelude/Lists.antt =====
-- Lists as tables: rows found, changed and counted by a Boolean test.
use Prim.Native.Nat.{ℕ, zero, suc, ◌+◌, ◌≤◌}
use mathlib.Core.Path.{◌≡◌, refl}
use mathlib.Core.Bool.{Bool, true, false, ◌||◌}
use mathlib.Core.Option.{Option, none, some}
use mathlib.Core.Option
use mathlib.Core.List.{List, [], ◌∷◌, ◌++◌, map}
use mathlib.Core.Logic.{inl, inr}
use native.Mathlib.Omega.{arith}
use qwen_harness_bridge.Prelude.Tests.{if◌then◌else◌, Bool-cases}

module _ {ℓ} {A : Type ℓ} where
  abbrev pub length : List A → ℕ
  length [] = 0
  length (x ∷ xs) = suc (length xs)

  abbrev pub All {κ} : (A → Type κ) → List A → Type κ
  All P [] = Unit
  All P (x ∷ xs) = P x × All P xs

  -- The first row that meets the test: `SELECT … WHERE … LIMIT 1`.
  unfoldable pub find : (A → Bool) → List A → Option A
  find p [] = none
  find p (x ∷ xs) = if p x then some x else find p xs

  -- Every row that meets the test is changed: `UPDATE … WHERE …`.
  unfoldable pub modify : (A → Bool) → (A → A) → List A → List A
  modify p f [] = []
  modify p f (x ∷ xs) = (if p x then f x else x) ∷ modify p f xs

  -- `items.filter(test)`.
  unfoldable pub select : (A → Bool) → List A → List A
  select p [] = []
  select p (x ∷ xs) = if p x then x ∷ select p xs else select p xs

  -- `items.some(test)`.
  unfoldable pub any : (A → Bool) → List A → Bool
  any p [] = false
  any p (x ∷ xs) = p x || any p xs

  unfoldable pub last : List A → Option A
  last [] = none
  last (x ∷ []) = some x
  last (x ∷ y ∷ ys) = last (y ∷ ys)

  abbrev pub take : ℕ → List A → List A
  take zero xs = []
  take (suc n) [] = []
  take (suc n) (x ∷ xs) = x ∷ take n xs

  abbrev pub drop : ℕ → List A → List A
  drop zero xs = xs
  drop (suc n) [] = []
  drop (suc n) (x ∷ xs) = drop n xs

  pub length-append : (xs ys : List A) → length (xs ++ ys) ≡ length xs + length ys
  length-append [] ys = omega arith
  length-append (x ∷ xs) ys = omega (arith, length-append xs ys)

  pub length-take-le : (n : ℕ) (xs : List A) → length (take n xs) ≤ n
  length-take-le zero xs = omega arith
  length-take-le (suc n) [] = omega arith
  length-take-le (suc n) (x ∷ xs) = omega (arith, length-take-le n xs)

  pub take-append-drop : (n : ℕ) (xs : List A) → take n xs ++ drop n xs ≡ xs
  take-append-drop zero xs = refl
  take-append-drop (suc n) [] = refl
  take-append-drop (suc n) (x ∷ xs) = rw (take-append-drop n xs)

  pub find-holds : (p : A → Bool) (xs : List A) (x : A) → find p xs ≡ some x → p x ≡ true
  unfolding find
  find-holds p [] x h = cc
  find-holds p (y ∷ ys) x h = ground (arith, find-holds p ys x)

  pub find-All {κ} :
      (P : A → Type κ) (p : A → Bool) (xs : List A) (x : A) → All P xs → find p xs ≡ some x → P x
  unfolding find
  find-All P p [] x a h = cc
  find-All P p (y ∷ ys) x a h = ground (arith, find-All P p ys x a.1)

  -- A row read back after a change that keeps the key is the changed row.
  pub find-modify_self :
      (p : A → Bool) (f : A → A)
      → ((x : A) → p x ≡ true → p (f x) ≡ true)
      → (xs : List A) → find p (modify p f xs) ≡ Option.map f (find p xs)
  unfolding find modify
  find-modify_self p f keep [] = refl
  find-modify_self p f keep (x ∷ xs) = ground (arith, keep x, find-modify_self p f keep xs)

  -- A row whose test is apart from that of the change is read as before.
  pub find-modify_other :
      (p q : A → Bool) (f : A → A)
      → ((x : A) → p x ≡ true → q x ≡ false)
      → ((x : A) → p x ≡ true → q (f x) ≡ false)
      → (xs : List A) → find q (modify p f xs) ≡ find q xs
  unfolding find modify
  find-modify_other p q f apart after [] = refl
  find-modify_other p q f apart after (x ∷ xs) =
      ground (arith, apart x, after x, find-modify_other p q f apart after xs)

  pub modify-All {κ} :
      (P : A → Type κ) (p : A → Bool) (f : A → A)
      → ((x : A) → p x ≡ true → P x → P (f x))
      → (xs : List A) → All P xs
      → All P (modify p f xs)
  unfolding modify
  modify-All P p f keep [] a = a
  modify-All P p f keep (x ∷ xs) a = elim (Bool-cases (p x)) [
    | inl e ↦ rw e (keep x e a.0, modify-All P p f keep xs a.1)
    | inr e ↦ rw e (a.0, modify-All P p f keep xs a.1)
  ]

  pub length-modify : (p : A → Bool) (f : A → A) (xs : List A) → length (modify p f xs) ≡ length xs
  unfolding modify
  length-modify p f [] = refl
  length-modify p f (x ∷ xs) = omega (arith, length-modify p f xs)

  pub any-find : (p : A → Bool) (xs : List A) → any p xs ≡ false → find p xs ≡ none
  unfolding any find
  any-find p [] h = refl
  any-find p (x ∷ xs) h = ground (arith, any-find p xs)

  -- A row read after the deletion of others.
  pub find-modify_kept :
      (p q : A → Bool) (f : A → A)
      → ((x : A) → p (f x) ≡ p x)
      → (xs : List A)
      → find p (modify q f xs) ≡ Option.map (λ x. if q x then f x else x) (find p xs)
  unfolding find modify
  find-modify_kept p q f keep [] = refl
  find-modify_kept p q f keep (x ∷ xs) = ground (arith, keep x, find-modify_kept p q f keep xs)

  pub map-modify {κ} :
      {B : Type κ} (g : A → B) (p : A → Bool) (f : A → A)
      → ((x : A) → g (f x) ≡ g x)
      → (xs : List A) → map g (modify p f xs) ≡ map g xs
  unfolding modify
  map-modify g p f keep [] = refl
  map-modify g p f keep (x ∷ xs) = elim (Bool-cases (p x)) [
    | inl e ↦ rw (e, keep x, map-modify g p f keep xs) refl
    | inr e ↦ rw (e, map-modify g p f keep xs) refl
  ]

  pub find-select :
      (p q : A → Bool)
      → ((x : A) → p x ≡ true → q x ≡ true)
      → (xs : List A) → find p (select q xs) ≡ find p xs
  unfolding find select
  find-select p q keep [] = refl
  find-select p q keep (x ∷ xs) = ground (arith, keep x, find-select p q keep xs)

  pub find-select-none :
      (p q : A → Bool)
      → ((x : A) → p x ≡ true → q x ≡ false)
      → (xs : List A) → find p (select q xs) ≡ none
  unfolding find select
  find-select-none p q gone [] = refl
  find-select-none p q gone (x ∷ xs) = ground (arith, gone x, find-select-none p q gone xs)
