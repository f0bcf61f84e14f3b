-- ===== src/Base/Sort.antt =====
-- Sorted lists of numbers, and how many entries of a list lie on either side of a number.
use Prim.Native.Nat.{ℕ, zero, suc, ◌+◌, ◌≤◌, ◌<◌}
use mathlib.Core.Path.{◌≡◌, refl, ap, ◌∙◌, subst}
use mathlib.Core.Logic.{inl, inr}
use mathlib.Core.Option.{Option, none, some}
use mathlib.Core.List.{List, [], ◌∷◌}
use native.Mathlib.Omega.{arith}
use archipelago_hotstuff.Base.Tests.{leb, if◌then◌else◌, Bool-cases}
use archipelago_hotstuff.Base.Lists.{length, All}

abbrev pub insert_sorted : ℕ → List ℕ → List ℕ
insert_sorted x [] = x ∷ []
insert_sorted x (y ∷ ys) = let rest = insert_sorted x ys in if leb x y then x ∷ y ∷ ys else y ∷ rest

-- `std::sort` of numbers.
abbrev pub sort : List ℕ → List ℕ
sort [] = []
sort (x ∷ xs) = insert_sorted x (sort xs)

abbrev pub IsSorted : List ℕ → Type 0
IsSorted [] = Unit
IsSorted (x ∷ xs) = All (λ y. x ≤ y) xs × IsSorted xs

module _ {ℓ} {A : Type ℓ} where
  abbrev pub nth : List A → ℕ → Option A
  nth [] i = none
  nth (x ∷ xs) zero = some x
  nth (x ∷ xs) (suc i) = nth xs i

abbrev pub count_le : ℕ → List ℕ → ℕ
count_le m [] = 0
count_le m (x ∷ xs) = (if leb x m then 1 else 0) + count_le m xs

abbrev pub count_ge : ℕ → List ℕ → ℕ
count_ge m [] = 0
count_ge m (x ∷ xs) = (if leb m x then 1 else 0) + count_ge m xs

All-le_trans : (x y : ℕ) (xs : List ℕ) → x ≤ y → All (λ z. y ≤ z) xs → All (λ z. x ≤ z) xs
All-le_trans x y [] h a = tt
All-le_trans x y (z ∷ zs) h (a, more) = (omega arith, All-le_trans x y zs h more)

All-insert_sorted :
    (P : ℕ → Type 0) (x : ℕ) (xs : List ℕ) → P x → All P xs → All P (insert_sorted x xs)
All-insert_sorted P x [] p a = (p, tt)
All-insert_sorted P x (y ∷ ys) p (q, qs) = elim (Bool-cases (leb x y)) [
  | inl le ↦ rw le (p, (q, qs))
  | inr gt ↦ rw gt (q, All-insert_sorted P x ys p qs)
]

insert_sorted-IsSorted : (x : ℕ) (xs : List ℕ) → IsSorted xs → IsSorted (insert_sorted x xs)
insert_sorted-IsSorted x [] s = (tt, tt)
insert_sorted-IsSorted x (y ∷ ys) (below, s) = elim (Bool-cases (leb x y)) [
  | inl le ↦
      let h : x ≤ y = ground (arith, le) in rw le ((h, All-le_trans x y ys h below), (below, s))
  | inr gt ↦
      let h : y ≤ x = ground (arith, gt) in
      rw gt (All-insert_sorted (λ z. y ≤ z) x ys h below, insert_sorted-IsSorted x ys s)
]

pub sort-IsSorted : (xs : List ℕ) → IsSorted (sort xs)
sort-IsSorted [] = tt
sort-IsSorted (x ∷ xs) = insert_sorted-IsSorted x (sort xs) (sort-IsSorted xs)

count_le-insert_sorted :
    (m x : ℕ) (xs : List ℕ) → count_le m (insert_sorted x xs) ≡ count_le m (x ∷ xs)
count_le-insert_sorted m x [] = refl
count_le-insert_sorted m x (y ∷ ys) = elim (Bool-cases (leb x y)) [
  | inl le ↦ rw le refl
  | inr gt ↦ rw gt (let h = count_le-insert_sorted m x ys in omega (arith, h))
]

count_ge-insert_sorted :
    (m x : ℕ) (xs : List ℕ) → count_ge m (insert_sorted x xs) ≡ count_ge m (x ∷ xs)
count_ge-insert_sorted m x [] = refl
count_ge-insert_sorted m x (y ∷ ys) = elim (Bool-cases (leb x y)) [
  | inl le ↦ rw le refl
  | inr gt ↦ rw gt (let h = count_ge-insert_sorted m x ys in omega (arith, h))
]

length-insert_sorted : (x : ℕ) (xs : List ℕ) → length (insert_sorted x xs) ≡ suc (length xs)
length-insert_sorted x [] = refl
length-insert_sorted x (y ∷ ys) = elim (Bool-cases (leb x y)) [
  | inl le ↦ rw le refl
  | inr gt ↦ rw gt (ap suc (length-insert_sorted x ys))
]

-- Sorting keeps the counts.
pub count_le-sort : (m : ℕ) (xs : List ℕ) → count_le m (sort xs) ≡ count_le m xs
count_le-sort m [] = refl
count_le-sort m (x ∷ xs) =
    count_le-insert_sorted m x (sort xs)
    ∙ ap (λ n. (if leb x m then 1 else 0) + n) (count_le-sort m xs)

pub count_ge-sort : (m : ℕ) (xs : List ℕ) → count_ge m (sort xs) ≡ count_ge m xs
count_ge-sort m [] = refl
count_ge-sort m (x ∷ xs) =
    count_ge-insert_sorted m x (sort xs)
    ∙ ap (λ n. (if leb m x then 1 else 0) + n) (count_ge-sort m xs)

pub length-sort : (xs : List ℕ) → length (sort xs) ≡ length xs
length-sort [] = refl
length-sort (x ∷ xs) = length-insert_sorted x (sort xs) ∙ ap suc (length-sort xs)

pub nth-lt : {A : Type 0} (xs : List A) (i : ℕ) → i < length xs → (a : A) × (nth xs i ≡ some a)
nth-lt [] i h = absurd (omega arith)
nth-lt (x ∷ xs) zero h = (x, refl)
nth-lt (x ∷ xs) (suc i) h = nth-lt xs i (omega arith)

All-nth : (P : ℕ → Type 0) (xs : List ℕ) (i m : ℕ) → All P xs → nth xs i ≡ some m → P m
All-nth P [] i m a e = cc
All-nth P (x ∷ xs) zero m (a, more) e = let same : x ≡ m = cc in subst P same a
All-nth P (x ∷ xs) (suc i) m (a, more) e = All-nth P xs i m more e

count_ge-All : (m : ℕ) (xs : List ℕ) → All (λ y. m ≤ y) xs → count_ge m xs ≡ length xs
count_ge-All m [] a = refl
count_ge-All m (x ∷ xs) (a, more) = let h = count_ge-All m xs more in ground (arith, h)

-- In a sorted list, the entry at index `i` has `i` others at or below it, and all behind it at or above.
pub nth-count_le : (xs : List ℕ) (i m : ℕ) → IsSorted xs → nth xs i ≡ some m → i + 1 ≤ count_le m xs
nth-count_le [] i m s e = cc
nth-count_le (x ∷ xs) zero m s e = let same : x ≡ m = cc in ground (arith, same)
nth-count_le (x ∷ xs) (suc i) m (b, s) e =
    let h = nth-count_le xs i m s e in
    let low : x ≤ m = All-nth (λ z. x ≤ z) xs i m b e in ground (arith, h, low)

pub nth-count_ge :
    (xs : List ℕ) (i m : ℕ) → IsSorted xs → nth xs i ≡ some m → length xs ≤ count_ge m xs + i
nth-count_ge [] i m s e = cc
nth-count_ge (x ∷ xs) zero m (b, s) e =
    let same : x ≡ m = cc in
    let h = count_ge-All m xs (subst (λ y. All (λ z. y ≤ z) xs) same b) in ground (arith, h, same)
nth-count_ge (x ∷ xs) (suc i) m (b, s) e = let h = nth-count_ge xs i m s e in ground (arith, h)
