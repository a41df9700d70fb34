-- ===== src/Common/Sort.antt =====
-- The insertion sort that the program writes out, also as the reading of sort.Slice.
use mathlib.Core.List.Perm
use mathlib.Core.List.{Perm, reverse, perm_middle}
use Prim.Native.Nat.{ℕ}
use mathlib.Core.Path.{◌≡◌, refl}
use mathlib.Core.Bool.{Bool, true, false}
use mathlib.Core.List.{List, [], ◌∷◌, ◌++◌, append-nil, reverse_perm, reverse-cons}
use native.Mathlib.Omega.{arith}
use fylane.Common.Tests.{if◌then◌else◌, if_cases, ltb}
use fylane.Common.Lists.{All, All-append}

module _ {ℓ} {A : Type ℓ} (before : A → A → Bool) where
  -- for j := i; j > 0 && ps[j] before ps[j-1]; j-- { swap }, over the sorted part read backwards.
  unfoldable pub sink : A → List A → List A
  sink x [] = x ∷ []
  sink x (y ∷ sorted) = if before x y then y ∷ sink x sorted else x ∷ y ∷ sorted

  unfoldable pub sort_from : List A → List A → List A
  unfolding sink
  sort_from sorted [] = reverse sorted
  sort_from sorted (x ∷ xs) = sort_from (sink x sorted) xs

  unfoldable pub sort_by : List A → List A
  unfolding sort_from
  sort_by xs = sort_from [] xs

  -- No later element comes before an earlier one.
  abbrev pub IsSortedBy : List A → Type 0
  IsSortedBy [] = Unit
  IsSortedBy (x ∷ xs) = All (λ y. before y x ≡ false) xs × IsSortedBy xs

-- What a comparison must satisfy for a sort by it to be meaningful.
pub record IsOrder {ℓ} {A : Type ℓ} (before : A → A → Bool) : Type ℓ where
  pub asym : (a b : A) → before a b ≡ true → before b a ≡ false
  pub trans : (a b c : A) → before b a ≡ false → before c b ≡ false → before c a ≡ false

-- The sorted part, read backwards: each element is before none of those behind it.
abbrev Desc {ℓ} : {A : Type ℓ} (before : A → A → Bool) → List A → Type 0
Desc before [] = Unit
Desc before (x ∷ xs) = All (λ y. before x y ≡ false) xs × Desc before xs

module _ {ℓ} {A : Type ℓ} (before : A → A → Bool) where
  sink-perm : (x : A) (xs : List A) → Perm (sink before x xs) (x ∷ xs)
  unfolding sink
  sink-perm x [] = Perm.refl (x ∷ [])
  sink-perm x (y ∷ ys) =
      if_cases (λ r. Perm r (x ∷ y ∷ ys)) (before x y) (y ∷ sink before x ys) (x ∷ y ∷ ys)
        (λ _. Perm.trans (Perm.cons y (sink-perm x ys)) (Perm.swap x y ys))
        (λ _. Perm.refl (x ∷ y ∷ ys))

  sort_from-perm : (xs sorted : List A) → Perm (sort_from before sorted xs) (sorted ++ xs)
  unfolding sort_from
  sort_from-perm [] sorted = rw append-nil (reverse_perm sorted)
  sort_from-perm (x ∷ xs) sorted =
      Perm.trans (sort_from-perm xs (sink before x sorted))
        (Perm.trans (Perm.append_right xs (sink-perm x sorted)) (Perm.symm (perm_middle sorted xs)))

  -- The result holds the elements of the input, each as often.
  pub sort_by-perm : (xs : List A) → Perm (sort_by before xs) xs
  unfolding sort_by
  sort_by-perm xs = sort_from-perm xs []

  All-sink {κ} : (P : A → Type κ) (x : A) (xs : List A) → P x → All P xs → All P (sink before x xs)
  unfolding sink
  All-sink P x [] h hs = (h, tt)
  All-sink P x (y ∷ ys) h hs =
      if_cases (All P) (before x y) (y ∷ sink before x ys) (x ∷ y ∷ ys)
        (λ _. (hs.0, All-sink P x ys h hs.1)) (λ _. (h, hs))

  module _ (o : IsOrder before) where
    All-below :
        (x y : A) (ys : List A)
        → before x y ≡ false
        → All (λ z. before y z ≡ false) ys
        → All (λ z. before x z ≡ false) ys
    All-below x y [] h hs = tt
    All-below x y (z ∷ zs) h (k, ks) = (o.trans z y x k h, All-below x y zs h ks)

    sink-Desc : (x : A) (xs : List A) → Desc before xs → Desc before (sink before x xs)
    unfolding sink
    sink-Desc x [] d = (tt, tt)
    sink-Desc x (y ∷ ys) (d, ds) =
        if_cases (Desc before) (before x y) (y ∷ sink before x ys) (x ∷ y ∷ ys)
          (λ h. (All-sink (λ z. before y z ≡ false) x ys (o.asym x y h) d, sink-Desc x ys ds))
          (λ h. ((h, All-below x y ys h d), (d, ds)))

    sort_from-Desc :
        (xs sorted : List A)
        → Desc before sorted
        → (r : List A) × (sort_from before sorted xs ≡ reverse r) × Desc before r
    unfolding sort_from
    sort_from-Desc [] sorted d = (sorted, refl, d)
    sort_from-Desc (x ∷ xs) sorted d =
        sort_from-Desc xs (sink before x sorted) (sink-Desc x sorted d)

-- Reading a descending list backwards gives an ascending one.
module _ {ℓ} {A : Type ℓ} (before : A → A → Bool) where
  IsSortedBy-snoc :
      (xs : List A) (x : A)
      → IsSortedBy before xs
      → All (λ y. before x y ≡ false) xs
      → IsSortedBy before (xs ++ x ∷ [])
  IsSortedBy-snoc [] x s h = (tt, tt)
  IsSortedBy-snoc (y ∷ ys) x (s, ss) (h, hs) =
      (All-append (λ z. before z y ≡ false) ys (x ∷ []) s (h, tt), IsSortedBy-snoc ys x ss hs)

  All-reverse {κ} : (P : A → Type κ) (xs : List A) → All P xs → All P (reverse xs)
  All-reverse P [] h = h
  All-reverse P (x ∷ xs) (h, hs) =
      rw (reverse-cons x xs) (All-append P (reverse xs) (x ∷ []) (All-reverse P xs hs) (h, tt))

  reverse-IsSortedBy : (xs : List A) → Desc before xs → IsSortedBy before (reverse xs)
  reverse-IsSortedBy [] d = tt
  reverse-IsSortedBy (x ∷ xs) (d, ds) = rw (reverse-cons x xs) (
      IsSortedBy-snoc (reverse xs) x (reverse-IsSortedBy xs ds)
        (All-reverse (λ y. before x y ≡ false) xs d))

  -- The result is sorted.
  pub sort_by-IsSortedBy : IsOrder before → (xs : List A) → IsSortedBy before (sort_by before xs)
  unfolding sort_by
  sort_by-IsSortedBy o xs =
      let (r, e, d) = sort_from-Desc before o xs [] tt in rw e (reverse-IsSortedBy r d)

  All-sort_from {κ} :
      (P : A → Type κ) (xs sorted : List A)
      → All P xs
      → All P sorted
      → All P (sort_from before sorted xs)
  unfolding sort_from
  All-sort_from P [] sorted h hs = All-reverse P sorted hs
  All-sort_from P (x ∷ xs) sorted (h, hs) ks =
      All-sort_from P xs (sink before x sorted) hs (All-sink before P x sorted h ks)

  pub All-sort_by {κ} : (P : A → Type κ) (xs : List A) → All P xs → All P (sort_by before xs)
  unfolding sort_by
  All-sort_by P xs h = All-sort_from P xs [] h tt

  All-append_parts {κ} : (P : A → Type κ) (xs ys : List A) → All P (xs ++ ys) → All P xs × All P ys
  All-append_parts P [] ys h = (tt, h)
  All-append_parts P (x ∷ xs) ys (h, hs) = let (k, l) = All-append_parts P xs ys hs in ((h, k), l)

  All-of_reverse {κ} : (P : A → Type κ) (xs : List A) → All P (reverse xs) → All P xs
  All-of_reverse P [] h = tt
  All-of_reverse P (x ∷ xs) h =
      let (k, l) = All-append_parts P (reverse xs) (x ∷ []) (rw (reverse-cons x xs) at h) in
      (l.0, All-of_reverse P xs k)

  All-of_sink {κ} :
      (P : A → Type κ) (x : A) (xs : List A) → All P (sink before x xs) → P x × All P xs
  unfolding sink
  All-of_sink P x [] (h, t) = (h, tt)
  All-of_sink P x (y ∷ ys) h =
      if_cases (λ r. All P r → P x × All P (y ∷ ys)) (before x y) (y ∷ sink before x ys)
        (x ∷ y ∷ ys) (λ _ k. let (a, b) = All-of_sink P x ys k.1 in (a, (k.0, b))) (λ _ k. k) h

  All-of_sort_from {κ} :
      (P : A → Type κ) (xs sorted : List A)
      → All P (sort_from before sorted xs)
      → All P xs × All P sorted
  unfolding sort_from
  All-of_sort_from P [] sorted h = (tt, All-of_reverse P sorted h)
  All-of_sort_from P (x ∷ xs) sorted h =
      let (k, l) = All-of_sort_from P xs (sink before x sorted) h in
      let (a, b) = All-of_sink P x sorted l in ((a, k), b)

  pub All-of_sort_by {κ} : (P : A → Type κ) (xs : List A) → All P (sort_by before xs) → All P xs
  unfolding sort_by
  All-of_sort_by P xs h = (All-of_sort_from P xs [] h).0

-- The order by a number, smallest first.
abbrev pub by_key {ℓ} : {A : Type ℓ} → (A → ℕ) → A → A → Bool
by_key key a b = ltb (key a) (key b)

pub by_key-IsOrder {ℓ} : {A : Type ℓ} (key : A → ℕ) → IsOrder (by_key key)
by_key-IsOrder key = record { asym = λ a b h. ground arith; trans = λ a b c h k. ground arith }
