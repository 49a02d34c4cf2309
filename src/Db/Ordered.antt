-- ===== src/Db/Ordered.antt =====
-- `ORDER BY`: what it keeps, and how it orders. The order is a parameter, as the collation of a
-- database is.
use fusion_bff.Base.{
  Bool, true, false, List, [], ◌∷◌, ◌∈◌, IsDistinct, ◌≡◌, ◌⊎◌, ◌↔◌, inl, inr, arith, Bool-cases,
}
use fusion_bff.Db.Tables.{insert_by, order_by}

module _ {Row : Type 0} (le : Row → Row → Bool) where
  -- Of two rows, one is at most the other.
  abbrev pub IsTotal : Type 0
  IsTotal = (a b : Row) → le a b ≡ false → le b a ≡ true

  abbrev IsBelow : Row → List Row → Type 0
  IsBelow a [] = Unit
  IsBelow a (x ∷ _) = le a x ≡ true

  -- Each row is at most the next one.
  abbrev pub IsOrdered : List Row → Type 0
  IsOrdered [] = Unit
  IsOrdered (x ∷ xs) = IsBelow x xs × IsOrdered xs

  insert_by-IsBelow :
      (a x : Row) (xs : List Row)
      → IsTotal
      → le a x ≡ false
      → IsBelow x xs
      → IsBelow x (insert_by le a xs)
  unfolding insert_by
  insert_by-IsBelow a x [] total h b = total a x h
  insert_by-IsBelow a x (y ∷ ys) total h b = ground (arith, total a x)

  insert_by-IsOrdered :
      (a : Row) (xs : List Row) → IsTotal → IsOrdered xs → IsOrdered (insert_by le a xs)
  unfolding insert_by
  insert_by-IsOrdered a [] total s = (tt, tt)
  insert_by-IsOrdered a (x ∷ xs) total s = elim (Bool-cases (le a x)) [
    | inl below ↦ rw below (below, s)
    | inr above ↦
        rw above (insert_by-IsBelow a x xs total above s.0, insert_by-IsOrdered a xs total s.1)
  ]

  pub order_by-IsOrdered : (rows : List Row) → IsTotal → IsOrdered (order_by le rows)
  unfolding order_by
  order_by-IsOrdered [] total = tt
  order_by-IsOrdered (x ∷ xs) total =
      insert_by-IsOrdered x (order_by le xs) total (order_by-IsOrdered xs total)

  mem-insert_by : (a b : Row) (xs : List Row) → (b ∈ insert_by le a xs) ↔ ((b ≡ a) ⊎ (b ∈ xs))
  unfolding insert_by
  mem-insert_by a b [] = ground arith
  mem-insert_by a b (x ∷ xs) = ground (arith, mem-insert_by a b xs)

  pub mem-order_by : (b : Row) (rows : List Row) → (b ∈ order_by le rows) ↔ (b ∈ rows)
  unfolding order_by
  mem-order_by b [] = (λ h. h, λ h. h)
  mem-order_by b (x ∷ xs) = ground (arith, mem-order_by b xs, mem-insert_by x b (order_by le xs))

  insert_by-IsDistinct :
      (a : Row) (xs : List Row) → ¬ (a ∈ xs) → IsDistinct xs → IsDistinct (insert_by le a xs)
  unfolding insert_by
  insert_by-IsDistinct a [] n d = (n, d)
  insert_by-IsDistinct a (x ∷ xs) n d = elim (Bool-cases (le a x)) [
    | inl below ↦ rw below (n, d)
    | inr above ↦
        rw above (
          λ m. ground (arith, mem-insert_by a x xs),
          insert_by-IsDistinct a xs (λ m. n (inr m)) d.1,
        )
  ]

  pub order_by-IsDistinct : (rows : List Row) → IsDistinct rows → IsDistinct (order_by le rows)
  unfolding order_by
  order_by-IsDistinct [] d = tt
  order_by-IsDistinct (x ∷ xs) d =
      insert_by-IsDistinct x (order_by le xs) (λ m. d.0 ((mem-order_by x xs).0 m))
        (order_by-IsDistinct xs d.1)
