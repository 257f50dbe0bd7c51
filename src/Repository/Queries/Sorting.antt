-- ===== src/Repository/Queries/Sorting.antt =====
-- The sorting of rows by a test, which is what an order of a query is read from.
use qwen_harness_bridge.Repository.Queries.{insert_row, order_by}
use mathlib.Core.List.{Perm}
use mathlib.Core.List.Perm
use qwen_harness_bridge.Prelude.{
  ℕ, ◌≡◌, [], ◌∷◌, true, false, List, Bool, length, IsSorted, All, take, drop, ◌⊎◌, inl, inr, refl,
  Bool-cases, arith, zero, suc, All-weaken,
}

-- No row of the list stands before one that precedes it.
abbrev pub IsOrdered {ℓ} : {A : Type ℓ} → (A → A → Bool) → List A → Type 0
IsOrdered before [] = Unit
IsOrdered before (x ∷ xs) = All (λ y. before y x ≡ false) xs × IsOrdered before xs

module _ {ℓ} {A : Type ℓ} (before : A → A → Bool) where
  All-insert_row {κ} :
      (P : A → Type κ) (x : A) (xs : List A) → P x → All P xs → All P (insert_row before x xs)
  unfolding insert_row
  All-insert_row P x [] p a = (p, tt)
  All-insert_row P x (y ∷ ys) p a = elim (Bool-cases (before y x)) [
    | inl e ↦ rw e (a.0, All-insert_row P x ys p a.1)
    | inr e ↦ rw e (p, a)
  ]

  insert_row-Perm : (x : A) (xs : List A) → Perm (insert_row before x xs) (x ∷ xs)
  unfolding insert_row
  insert_row-Perm x [] = Perm.rfl
  insert_row-Perm x (y ∷ ys) = elim (Bool-cases (before y x)) [
    | inl e ↦ rw e (Perm.trans (Perm.cons y (insert_row-Perm x ys)) (Perm.swap x y ys))
    | inr e ↦ rw e Perm.rfl
  ]

  pub order_by-Perm : (xs : List A) → Perm (order_by before xs) xs
  unfolding order_by
  order_by-Perm [] = Perm.rfl
  order_by-Perm (x ∷ xs) =
      Perm.trans (insert_row-Perm x (order_by before xs)) (Perm.cons x (order_by-Perm xs))

  -- A test that is a strict weak order sorts.
  module _ (asym : (x y : A) → before y x ≡ true → before x y ≡ false)
      (weak : (x y z : A) → before z y ≡ false → before y x ≡ false → before z x ≡ false) where
    All-weak :
        (x y : A) (ys : List A)
        → before y x ≡ false
        → All (λ z. before z y ≡ false) ys
        → All (λ z. before z x ≡ false) ys
    All-weak x y [] e a = tt
    All-weak x y (z ∷ zs) e a = (weak x y z a.0 e, All-weak x y zs e a.1)

    insert_row-IsOrdered :
        (x : A) (xs : List A) → IsOrdered before xs → IsOrdered before (insert_row before x xs)
    unfolding insert_row
    insert_row-IsOrdered x [] o = (tt, tt)
    insert_row-IsOrdered x (y ∷ ys) o = elim (Bool-cases (before y x)) [
      | inl e ↦ rw e (
        All-insert_row (λ z. before z y ≡ false) x ys (asym x y e) o.0,
        insert_row-IsOrdered x ys o.1,
      )
      | inr e ↦ rw e ((e, All-weak x y ys e o.0), o)
    ]

    pub order_by-IsOrdered : (xs : List A) → IsOrdered before (order_by before xs)
    unfolding order_by
    order_by-IsOrdered [] = tt
    order_by-IsOrdered (x ∷ xs) =
        insert_row-IsOrdered x (order_by before xs) (order_by-IsOrdered xs)

pub IsOrdered-IsSorted :
    {A : Type 0} (before : A → A → Bool) (R : A → A → Type 0)
    → ((x y : A) → before y x ≡ false → R x y)
    → (xs : List A) → IsOrdered before xs
    → IsSorted R xs
IsOrdered-IsSorted before R keeps [] o = tt
IsOrdered-IsSorted before R keeps (x ∷ xs) o =
    (All-weaken (keeps x) xs o.0, IsOrdered-IsSorted before R keeps xs o.1)

pub taken_all {ℓ} : {A : Type ℓ} (n : ℕ) (xs : List A) → (length (take n xs) ≡ n) ⊎ (drop n xs ≡ [])
taken_all zero xs = inl refl
taken_all (suc n) [] = inr refl
taken_all (suc n) (x ∷ xs) = elim (taken_all n xs) [ inl e ↦ inl (omega arith) | inr e ↦ inr e ]
