-- ===== src/Base/Lists.antt =====
-- Lists measured by native numbers, and lists of numbers used as sets and as maps.
use Prim.Native.Nat.{ℕ, suc, ◌+◌}
use mathlib.Core.Path.{◌≡◌, refl, subst}
use mathlib.Core.Logic.{◌⊎◌, inl, inr}
use mathlib.Core.Bool.{Bool, true, false, ◌||◌}
use mathlib.Core.Option.{Option, none, some}
use mathlib.Core.List.{List, [], ◌∷◌, ◌++◌}
use native.Mathlib.Omega.{arith}
use archipelago_hotstuff.Base.Tests.{◌==◌, ==_refl, ==_iff, if◌then◌else◌}

module _ {ℓ} {A : Type ℓ} where
  abbrev pub length : List A → ℕ
  length [] = 0
  length (x ∷ xs) = suc (length xs)

  pub length-append : (xs ys : List A) → length (xs ++ ys) ≡ length xs + length ys
  length-append [] ys = omega arith
  length-append (x ∷ xs) ys = omega (arith, length-append xs ys)

  abbrev pub All {κ} : (A → Type κ) → List A → Type κ
  All P [] = Unit
  All P (x ∷ xs) = P x × All P xs

  -- A dictionary as an association list; `std::unordered_map::find`.
  unfoldable pub lookup : ℕ → List (ℕ × A) → Option A
  lookup k [] = none
  lookup k ((j, v) ∷ m) = if j == k then some v else lookup k m

-- A set of numbers as a list.
abbrev pub member : ℕ → List ℕ → Bool
member a [] = false
member a (x ∷ xs) = (x == a) || member a xs

unfoldable pub erase : ℕ → List ℕ → List ℕ
erase a [] = []
erase a (x ∷ xs) = if x == a then erase a xs else x ∷ erase a xs

-- The elements are distinct.
abbrev pub Distinct : List ℕ → Type 0
Distinct [] = Unit
Distinct (x ∷ xs) = (member x xs ≡ false) × Distinct xs

pub member-erase : (a : ℕ) (xs : List ℕ) → member a (erase a xs) ≡ false
unfolding erase
member-erase a [] = refl
member-erase a (x ∷ xs) = let rest = member-erase a xs in ground arith

module _ {ℓ} {A : Type ℓ} where
  pub lookup-here : (k : ℕ) (v : A) (m : List (ℕ × A)) → lookup k ((k, v) ∷ m) ≡ some v
  unfolding lookup
  lookup-here k v m = rw (==_refl k) refl

  lookup-single_at :
      (b : Bool) (j k : ℕ) (v w : A)
      → (j == k) ≡ b
      → (if b then some v else none) ≡ some w
      → (j ≡ k) × (v ≡ w)
  lookup-single_at true j k v w h e = ((==_iff j k).0 h, cc)
  lookup-single_at false j k v w h e = cc

  pub lookup-single : (j k : ℕ) (v w : A) → lookup k ((j, v) ∷ []) ≡ some w → (j ≡ k) × (v ≡ w)
  unfolding lookup
  lookup-single j k v w e = lookup-single_at (j == k) j k v w refl e

  lookup-All_at :
      (P : ℕ → A → Type 0) (b : Bool) (j k : ℕ) (v w : A) (rest : Option A)
      → (j == k) ≡ b
      → P j v
      → (rest ≡ some w → P k w)
      → (if b then some v else rest) ≡ some w
      → P k w
  lookup-All_at P true j k v w rest h p q e =
      let same : v ≡ w = cc in subst (P k) same (subst (λ i. P i v) ((==_iff j k).0 h) p)
  lookup-All_at P false j k v w rest h p q e = q e

  -- What holds of all entries holds of a found one.
  pub lookup-All :
      (P : ℕ → A → Type 0) (k : ℕ) (w : A) (m : List (ℕ × A))
      → All (λ e. P e.0 e.1) m
      → lookup k m ≡ some w
      → P k w
  unfolding lookup
  lookup-All P k w [] ps e = cc
  lookup-All P k w ((j, v) ∷ m) (p, ps) e =
      lookup-All_at P (j == k) j k v w (lookup k m) refl p (lookup-All P k w m ps) e

  lookup-cons_at :
      (b : Bool) (j k : ℕ) (v w : A) (rest : Option A)
      → (j == k) ≡ b
      → (if b then some v else rest) ≡ some w
      → ((j ≡ k) × (v ≡ w)) ⊎ (rest ≡ some w)
  lookup-cons_at true j k v w rest h e = inl ((==_iff j k).0 h, cc)
  lookup-cons_at false j k v w rest h e = inr e

  pub lookup-cons :
      (j k : ℕ) (v w : A) (m : List (ℕ × A))
      → lookup k ((j, v) ∷ m) ≡ some w
      → ((j ≡ k) × (v ≡ w)) ⊎ (lookup k m ≡ some w)
  unfolding lookup
  lookup-cons j k v w m e = lookup-cons_at (j == k) j k v w (lookup k m) refl e
