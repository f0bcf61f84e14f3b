-- ===== src/Base/Slices.antt =====
-- Prefixes and suffixes of lists, measured by native numbers, and permutations.
use Prim.Native.Nat.{ℕ, zero, suc, ◌+◌, ◌-◌, ◌≤◌, ◌<◌}
use mathlib.Core.Path.{◌≡◌, refl, sym, ap, ◌∙◌, subst}
use mathlib.Core.List.{List, [], ◌∷◌, ◌++◌}
use mathlib.Core.List.{Permᴰ}
use native.Mathlib.Omega.{arith}
use mathlib.Core.Option.{some}
use archipelago_hotstuff.Base.Lists.{length, All}
use archipelago_hotstuff.Base.Sort.{nth}

module _ {ℓ} {A : Type ℓ} where
  abbrev pub take : ℕ → List A → List A
  take zero xs = []
  take (suc n) [] = []
  take (suc n) (x ∷ xs) = x ∷ take n xs

  abbrev pub drop : ℕ → List A → List A
  drop zero xs = xs
  drop (suc n) [] = []
  drop (suc n) (x ∷ xs) = drop n xs

  pub take-append-drop : (n : ℕ) (xs : List A) → take n xs ++ drop n xs ≡ xs
  take-append-drop zero xs = refl
  take-append-drop (suc n) [] = refl
  take-append-drop (suc n) (x ∷ xs) = ap {B = List A} (λ r. x ∷ r) (take-append-drop n xs)

  pub length-take : (n : ℕ) (xs : List A) → n ≤ length xs → length (take n xs) ≡ n
  length-take zero xs h = refl
  length-take (suc n) [] h = absurd (omega arith)
  length-take (suc n) (x ∷ xs) h = ap suc (length-take n xs (omega arith))

  pub length-drop : (n : ℕ) (xs : List A) → length (drop n xs) ≡ length xs - n
  length-drop zero xs = omega arith
  length-drop (suc n) [] = omega arith
  length-drop (suc n) (x ∷ xs) = length-drop n xs ∙ omega arith

  pub take-append : (n : ℕ) (xs ys : List A) → n ≤ length xs → take n (xs ++ ys) ≡ take n xs
  take-append zero xs ys h = refl
  take-append (suc n) [] ys h = absurd (omega arith)
  take-append (suc n) (x ∷ xs) ys h =
      ap {B = List A} (λ r. x ∷ r) (take-append n xs ys (omega arith))

  pub take-exact : (n : ℕ) (xs ys : List A) → length xs ≡ n → take n (xs ++ ys) ≡ xs
  take-exact zero [] ys h = refl
  take-exact zero (x ∷ xs) ys h = absurd (omega arith)
  take-exact (suc n) [] ys h = absurd (omega arith)
  take-exact (suc n) (x ∷ xs) ys h = ap {B = List A} (λ r. x ∷ r) (take-exact n xs ys (omega arith))

  pub drop-exact : (n : ℕ) (xs ys : List A) → length xs ≡ n → drop n (xs ++ ys) ≡ ys
  drop-exact zero [] ys h = refl
  drop-exact zero (x ∷ xs) ys h = absurd (omega arith)
  drop-exact (suc n) [] ys h = absurd (omega arith)
  drop-exact (suc n) (x ∷ xs) ys h = drop-exact n xs ys (omega arith)

  pub take-all : (n : ℕ) (xs : List A) → length xs ≤ n → take n xs ≡ xs
  take-all zero [] h = refl
  take-all zero (x ∷ xs) h = absurd (omega arith)
  take-all (suc n) [] h = refl
  take-all (suc n) (x ∷ xs) h = ap {B = List A} (λ r. x ∷ r) (take-all n xs (omega arith))

  pub drop-all : (n : ℕ) (xs : List A) → length xs ≤ n → drop n xs ≡ []
  drop-all zero [] h = refl
  drop-all zero (x ∷ xs) h = absurd (omega arith)
  drop-all (suc n) [] h = refl
  drop-all (suc n) (x ∷ xs) h = drop-all n xs (omega arith)

  -- Equal prefixes have equal shorter prefixes.
  pub take-take : (m n : ℕ) (xs : List A) → m ≤ n → take m (take n xs) ≡ take m xs
  take-take zero n xs h = refl
  take-take (suc m) zero xs h = absurd (omega arith)
  take-take (suc m) (suc n) [] h = refl
  take-take (suc m) (suc n) (x ∷ xs) h =
      ap {B = List A} (λ r. x ∷ r) (take-take m n xs (omega arith))

  pub take-drop : (i n : ℕ) (xs : List A) → take n (drop i xs) ≡ drop i (take (i + n) xs)
  take-drop zero n xs = let e : n ≡ 0 + n = omega arith in ap (λ k. take k xs) e
  take-drop (suc i) zero [] = ap (drop (suc i)) (sym (take-all (suc i + 0) [] (omega arith)))
  take-drop (suc i) (suc n) [] = ap (drop (suc i)) (sym (take-all (suc i + suc n) [] (omega arith)))
  take-drop (suc i) n (x ∷ xs) =
      let e : suc (i + n) ≡ suc i + n = omega arith in
      take-drop i n xs ∙ ap (λ k. drop (suc i) (take k (x ∷ xs))) e

  pub drop-nth :
      (i : ℕ) (xs : List A)
      → i < length xs
      → (x : A) × (nth xs i ≡ some x) × (drop i xs ≡ x ∷ drop (i + 1) xs)
  drop-nth zero [] h = absurd (omega arith)
  drop-nth zero (x ∷ xs) h = (x, refl, refl)
  drop-nth (suc i) [] h = absurd (omega arith)
  drop-nth (suc i) (x ∷ xs) h =
      let (y, e, d) = drop-nth i xs (omega arith) in
      let q : suc (i + 1) ≡ suc i + 1 = omega arith in (y, e, d ∙ ap (λ k. y ∷ drop k (x ∷ xs)) q)

  pub nth-drop : (n i : ℕ) (xs : List A) → nth (drop n xs) i ≡ nth xs (n + i)
  nth-drop zero i xs = let e : i ≡ 0 + i = omega arith in ap (nth xs) e
  nth-drop (suc n) i [] = refl
  nth-drop (suc n) i (x ∷ xs) =
      let e : suc (n + i) ≡ suc n + i = omega arith in nth-drop n i xs ∙ ap (nth (x ∷ xs)) e

  pub All-take-nth {κ} :
      (P : A → Type κ) (k i : ℕ) (x : A) (xs : List A)
      → All P (take k xs)
      → i < k
      → nth xs i ≡ some x
      → P x
  All-take-nth P k i x [] a h e = cc
  All-take-nth P zero i x (y ∷ xs) a h e = absurd (omega arith)
  All-take-nth P (suc k) zero x (y ∷ xs) (a, more) h e = let same : y ≡ x = cc in subst P same a
  All-take-nth P (suc k) (suc i) x (y ∷ xs) (a, more) h e =
      All-take-nth P k i x xs more (omega arith) e

  pub All-drop {κ} : (P : A → Type κ) (k : ℕ) (xs : List A) → All P xs → All P (drop k xs)
  All-drop P zero xs a = a
  All-drop P (suc k) [] a = tt
  All-drop P (suc k) (x ∷ xs) (a, more) = All-drop P k xs more

  pub All-drop-nth {κ} :
      (P : A → Type κ) (k : ℕ) (x : A) (xs : List A) → All P (drop k xs) → nth xs k ≡ some x → P x
  All-drop-nth P k x [] a e = cc
  All-drop-nth P zero x (y ∷ xs) (a, more) e = let same : y ≡ x = cc in subst P same a
  All-drop-nth P (suc k) x (y ∷ xs) a e = All-drop-nth P k x xs a e

  pub Perm-length : {xs ys : List A} → Permᴰ xs ys → length xs ≡ length ys
  Perm-length Permᴰ.nil = refl
  Perm-length (Permᴰ.cons e d) = ap suc (Perm-length d)
  Perm-length (Permᴰ.swap e f) = refl
  Perm-length (Permᴰ.trans d f) = Perm-length d ∙ Perm-length f

  pub Perm-All {κ} : (P : A → Type κ) {xs ys : List A} → Permᴰ xs ys → All P xs → All P ys
  Perm-All P Permᴰ.nil a = tt
  Perm-All P (Permᴰ.cons e d) (a, more) = (subst P e a, Perm-All P d more)
  Perm-All P (Permᴰ.swap e f) (a, (b, more)) = (subst P f b, (subst P e a, more))
  Perm-All P (Permᴰ.trans d f) a = Perm-All P f (Perm-All P d a)

  -- Lists with the same prefix and a permuted suffix are permutations of each other.
  pub Perm-glue :
      (n : ℕ) (xs ys : List A) → take n ys ≡ take n xs → Permᴰ (drop n xs) (drop n ys) → Permᴰ xs ys
  Perm-glue zero xs ys e d = d
  Perm-glue (suc n) [] [] e d = d
  Perm-glue (suc n) [] (y ∷ ys) e d = cc
  Perm-glue (suc n) (x ∷ xs) [] e d = cc
  Perm-glue (suc n) (x ∷ xs) (y ∷ ys) e d =
      let first : x ≡ y = cc in
      let rest : take n ys ≡ take n xs = cc in Permᴰ.cons first (Perm-glue n xs ys rest d)
