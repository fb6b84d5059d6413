-- ===== src/Base/Sort.antt =====
-- sort.Slice of the Go library: it leaves a permutation of the slice, ordered by `less`, and does
-- not say in which order equal elements come. The program's calls take the sort as a parameter.
use mathlib.Core.Path.{◌≡◌, refl, sym, subst}
use mathlib.Core.Logic.{inl, inr, ◌↔◌}
use mathlib.Core.Bool.{Bool, true, false}
use mathlib.Core.List.{List, [], ◌∷◌}
use Prim.Native.Nat.{ℕ, zero, suc}
use native.Mathlib.Omega.{arith}
use toposcope.Base.Tests.{if◌then◌else◌, Bool-cases}
use toposcope.Base.Lists.{length, In, count, take, drop}

-- sort.Slice(xs, less), as a function of the slice.
abbrev pub SortSlice : Type 1
SortSlice = (A : Type 0) → (A → A → Bool) → List A → List A

module _ {A : Type 0} (less : A → A → Bool) where
  -- No element stands behind one that it is less than.
  abbrev pub NoneBelow : A → List A → Type 0
  NoneBelow x [] = Unit
  NoneBelow x (y ∷ ys) = (less y x ≡ false) × NoneBelow x ys

  abbrev pub IsSorted : List A → Type 0
  IsSorted [] = Unit
  IsSorted (x ∷ xs) = NoneBelow x xs × IsSorted xs

  NoneBelow-In : (x y : A) (ys : List A) → NoneBelow x ys → In y ys → less y x ≡ false
  NoneBelow-In x y [] h i = elim i [ ]
  NoneBelow-In x y (z ∷ ys) h i = elim i [
    | inl e ↦ subst (λ w. less w x ≡ false) (sym e) h.0
    | inr j ↦ NoneBelow-In x y ys h.1 j
  ]

  In-drop : (n : ℕ) (xs : List A) (x : A) → In x (drop n xs) → In x xs
  In-drop zero xs x h = h
  In-drop (suc n) [] x h = h
  In-drop (suc n) (y ∷ xs) x h = inr (In-drop n xs x h)

  -- In a sorted list nothing behind a cut is less than what stands before it.
  pub sorted-take-drop :
      (n : ℕ) (xs : List A) (x y : A)
      → IsSorted xs
      → In x (take n xs)
      → In y (drop n xs)
      → less y x ≡ false
  sorted-take-drop zero xs x y s i j = elim i [ ]
  sorted-take-drop (suc n) [] x y s i j = elim i [ ]
  sorted-take-drop (suc n) (z ∷ xs) x y s i j = elim i [
    | inl e ↦ subst (λ w. less y w ≡ false) (sym e) (NoneBelow-In z y xs s.0 (In-drop n xs y j))
    | inr k ↦ sorted-take-drop n xs x y s.1 k j
  ]

  -- What sort.Slice asks of its `less`.
  pub record IsWeakOrder : Type 0 where
    pub asym : (x y : A) → less x y ≡ true → less y x ≡ false
    pub co_trans : (x y z : A) → less x y ≡ false → less y z ≡ false → less x z ≡ false

-- The documented behaviour of sort.Slice.
pub record Sorts (sort : SortSlice) : Type 1 where
  pub counts :
      (A : Type 0) (less : A → A → Bool) (xs : List A) (p : A → Bool)
      → count p (sort A less xs) ≡ count p xs
  pub members :
      (A : Type 0) (less : A → A → Bool) (xs : List A) (a : A) → In a (sort A less xs) ↔ In a xs
  pub size : (A : Type 0) (less : A → A → Bool) (xs : List A) → length (sort A less xs) ≡ length xs
  pub sorted :
      (A : Type 0) (less : A → A → Bool) (xs : List A)
      → IsWeakOrder less
      → IsSorted less (sort A less xs)

-- An insertion sort shows that the behaviour can be met.
module _ {A : Type 0} (less : A → A → Bool) where
  unfoldable pub place : A → List A → List A
  place x [] = x ∷ []
  place x (y ∷ ys) = if less y x then y ∷ place x ys else x ∷ y ∷ ys

  unfoldable pub insertion_sort : List A → List A
  unfolding place
  insertion_sort [] = []
  insertion_sort (x ∷ xs) = place x (insertion_sort xs)

  count-place : (x : A) (xs : List A) (p : A → Bool) → count p (place x xs) ≡ count p (x ∷ xs)
  unfolding place
  count-place x [] p = refl
  count-place x (y ∷ ys) p = ground (arith, count-place x ys p)

  In-place : (x : A) (xs : List A) (a : A) → In a (place x xs) ↔ In a (x ∷ xs)
  unfolding place
  In-place x [] a = ground arith
  In-place x (y ∷ ys) a = ground (arith, In-place x ys a)

  length-place : (x : A) (xs : List A) → length (place x xs) ≡ suc (length xs)
  unfolding place
  length-place x [] = refl
  length-place x (y ∷ ys) = ground (arith, length-place x ys)

  NoneBelow-place :
      (z x : A) (xs : List A)
      → less x z ≡ false
      → NoneBelow less z xs
      → NoneBelow less z (place x xs)
  unfolding place
  NoneBelow-place z x [] h n = (h, tt)
  NoneBelow-place z x (y ∷ ys) h n = ground (arith, NoneBelow-place z x ys)

  NoneBelow-trans :
      IsWeakOrder less
      → (z x : A) (xs : List A) → less x z ≡ false
      → NoneBelow less x xs
      → NoneBelow less z xs
  NoneBelow-trans o z x [] h n = tt
  NoneBelow-trans o z x (y ∷ ys) h n = (o.co_trans y x z n.0 h, NoneBelow-trans o z x ys h n.1)

  place-IsSorted :
      IsWeakOrder less → (x : A) (xs : List A) → IsSorted less xs → IsSorted less (place x xs)
  unfolding place
  place-IsSorted o x [] s = (tt, tt)
  place-IsSorted o x (y ∷ ys) s = elim (Bool-cases (less y x)) [
    | inl e ↦ rw e (NoneBelow-place y x ys (o.asym y x e) s.0, place-IsSorted o x ys s.1)
    | inr e ↦ rw e ((e, NoneBelow-trans o x y ys e s.0), s)
  ]

  pub count-insertion_sort : (xs : List A) (p : A → Bool) → count p (insertion_sort xs) ≡ count p xs
  unfolding insertion_sort
  count-insertion_sort [] p = refl
  count-insertion_sort (x ∷ xs) p =
      omega (arith, count-place x (insertion_sort xs) p, count-insertion_sort xs p)

  pub In-insertion_sort : (xs : List A) (a : A) → In a (insertion_sort xs) ↔ In a xs
  unfolding insertion_sort
  In-insertion_sort [] a = (λ h. h, λ h. h)
  In-insertion_sort (x ∷ xs) a =
      ground (arith, In-place x (insertion_sort xs) a, In-insertion_sort xs a)

  pub length-insertion_sort : (xs : List A) → length (insertion_sort xs) ≡ length xs
  unfolding insertion_sort
  length-insertion_sort [] = refl
  length-insertion_sort (x ∷ xs) =
      omega (arith, length-place x (insertion_sort xs), length-insertion_sort xs)

  pub insertion_sort-IsSorted : IsWeakOrder less → (xs : List A) → IsSorted less (insertion_sort xs)
  unfolding insertion_sort
  insertion_sort-IsSorted o [] = tt
  insertion_sort-IsSorted o (x ∷ xs) =
      place-IsSorted o x (insertion_sort xs) (insertion_sort-IsSorted o xs)

abbrev pub by_insertion : SortSlice
by_insertion A less = insertion_sort less

pub by_insertion-Sorts : Sorts by_insertion
by_insertion-Sorts = record {
  counts = λ A less xs p. count-insertion_sort less xs p;
  members = λ A less xs a. In-insertion_sort less xs a;
  size = λ A less xs. length-insertion_sort less xs;
  sorted = λ A less xs o. insertion_sort-IsSorted less o xs;
}
