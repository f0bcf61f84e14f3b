-- ===== src/Base/Maps.antt =====
-- Dictionaries as association lists: writes, removals and insertions.
use Prim.Native.Nat.{ℕ, suc}
use mathlib.Core.Path.{◌≡◌, refl, subst, sym, ap, ◌∙◌}
use mathlib.Core.Logic.{◌≢◌, inl, inr}
use mathlib.Core.Bool.{false}
use mathlib.Core.Option.{none, some}
use mathlib.Core.List.{List, [], ◌∷◌}
use archipelago_hotstuff.Base.Tests.{
  ◌==◌, ==_refl, ==_ne, ==_iff, if◌then◌else◌, Bool-cases, Option-cases,
}
use archipelago_hotstuff.Base.Lists.{length, All, lookup, lookup-cons, lookup-here}

module _ {ℓ} {A : Type ℓ} where
  -- `it->second = v`
  unfoldable pub write : ℕ → A → List (ℕ × A) → List (ℕ × A)
  write k v [] = []
  write k v ((j, w) ∷ m) = let rest = write k v m in if j == k then (j, v) ∷ m else (j, w) ∷ rest

  -- `std::unordered_map::erase`
  unfoldable pub remove : ℕ → List (ℕ × A) → List (ℕ × A)
  remove k [] = []
  remove k ((j, w) ∷ m) = let rest = remove k m in if j == k then m else (j, w) ∷ rest

  -- `std::unordered_map::insert`, which keeps an entry that is there.
  unfoldable pub insert_new : ℕ → A → List (ℕ × A) → List (ℕ × A)
  insert_new k v m = elim (lookup k m) [ none ↦ (k, v) ∷ m | some _ ↦ m ]

  -- `m[k] = v`
  unfoldable pub assign : ℕ → A → List (ℕ × A) → List (ℕ × A)
  unfolding write
  assign k v m = elim (lookup k m) [ none ↦ (k, v) ∷ m | some _ ↦ write k v m ]

  pub lookup-other :
      (j k : ℕ) (v : A) (m : List (ℕ × A)) → j ≢ k → lookup k ((j, v) ∷ m) ≡ lookup k m
  unfolding lookup
  lookup-other j k v m ne = rw (==_ne j k ne) refl

  pub insert_new-none :
      (k : ℕ) (v : A) (m : List (ℕ × A)) → lookup k m ≡ none → insert_new k v m ≡ (k, v) ∷ m
  unfolding insert_new
  insert_new-none k v m e = rw (e, insert_new) refl

  pub insert_new-some :
      (k : ℕ) (v w : A) (m : List (ℕ × A)) → lookup k m ≡ some w → insert_new k v m ≡ m
  unfolding insert_new
  insert_new-some k v w m e = rw (e, insert_new) refl

  -- No entry has the key.
  pub lookup-absent : (k : ℕ) (m : List (ℕ × A)) → All (λ e. e.0 ≢ k) m → lookup k m ≡ none
  unfolding lookup
  lookup-absent k [] a = refl
  lookup-absent k ((j, v) ∷ m) (a, more) = rw (==_ne j k a) (lookup-absent k m more)

  pub assign-absent :
      (k : ℕ) (v : A) (m : List (ℕ × A)) → lookup k m ≡ none → assign k v m ≡ (k, v) ∷ m
  unfolding assign
  assign-absent k v m e = rw (e, assign) refl

  pub write-same : (k : ℕ) (v : A) (m : List (ℕ × A)) → lookup k m ≡ some v → write k v m ≡ m
  unfolding lookup write
  write-same k v [] e = refl
  write-same k v ((j, u) ∷ m) e = elim (Bool-cases (j == k)) [
    | inl h ↦
        let same : u ≡ v = let f : some u ≡ some v = (rw h at e) in cc in
        rw h (ap (λ w. (j, w) ∷ m) (sym same))
    | inr h ↦ rw h (ap {B = List (ℕ × A)} (λ r. (j, u) ∷ r) (write-same k v m (rw h at e)))
  ]

  pub assign-same : (k : ℕ) (v : A) (m : List (ℕ × A)) → lookup k m ≡ some v → assign k v m ≡ m
  unfolding assign
  assign-same k v m e = rw (e, assign) (write-same k v m e)

  pub lookup-write :
      (k : ℕ) (v w : A) (m : List (ℕ × A)) → lookup k m ≡ some w → lookup k (write k v m) ≡ some v
  unfolding lookup write
  lookup-write k v w [] e = cc
  lookup-write k v w ((j, u) ∷ m) e = elim (Bool-cases (j == k)) [
    | inl h ↦ rw (h, h) refl
    | inr h ↦ rw (h, h) (lookup-write k v w m (rw h at e))
  ]

  pub lookup-assign : (k : ℕ) (v : A) (m : List (ℕ × A)) → lookup k (assign k v m) ≡ some v
  unfolding assign
  lookup-assign k v m = elim (Option-cases (lookup k m)) [
    | inl e ↦ rw (e, assign) (lookup-here k v m)
    | inr (w, e) ↦ rw (e, assign) (lookup-write k v w m e)
  ]

  pub write-write : (k : ℕ) (v w : A) (m : List (ℕ × A)) → write k v (write k w m) ≡ write k v m
  unfolding write
  write-write k v w [] = refl
  write-write k v w ((j, u) ∷ m) = elim (Bool-cases (j == k)) [
    | inl h ↦ rw (h, h) refl
    | inr h ↦ rw (h, h) (ap {B = List (ℕ × A)} (λ r. (j, u) ∷ r) (write-write k v w m))
  ]

  pub remove-write : (k : ℕ) (v : A) (m : List (ℕ × A)) → remove k (write k v m) ≡ remove k m
  unfolding write remove
  remove-write k v [] = refl
  remove-write k v ((j, u) ∷ m) = elim (Bool-cases (j == k)) [
    | inl h ↦ rw (h, h) refl
    | inr h ↦ rw (h, h) (ap {B = List (ℕ × A)} (λ r. (j, u) ∷ r) (remove-write k v m))
  ]

  pub lookup-write_other :
      (j k : ℕ) (v : A) (m : List (ℕ × A)) → j ≢ k → lookup k (write j v m) ≡ lookup k m
  unfolding lookup write
  lookup-write_other j k v [] ne = refl
  lookup-write_other j k v ((i, u) ∷ m) ne = elim (Bool-cases (i == j)) [
    | inl h ↦
        let other : i ≢ k = λ x. ne (sym ((==_iff i j).0 h) ∙ x) in rw (h, ==_ne i k other) refl
    | inr h ↦ elim (Bool-cases (i == k)) [
      | inl g ↦ rw (h, g) refl
      | inr g ↦ rw (h, g) (lookup-write_other j k v m ne)
    ]
  ]

  pub lookup-assign_other :
      (j k : ℕ) (v : A) (m : List (ℕ × A)) → j ≢ k → lookup k (assign j v m) ≡ lookup k m
  unfolding assign
  lookup-assign_other j k v m ne = elim (Option-cases (lookup j m)) [
    | inl e ↦ rw (e, assign) (lookup-other j k v m ne)
    | inr (u, e) ↦ rw (e, assign) (lookup-write_other j k v m ne)
  ]

  pub length-write : (k : ℕ) (v : A) (m : List (ℕ × A)) → length (write k v m) ≡ length m
  unfolding write
  length-write k v [] = refl
  length-write k v ((j, w) ∷ m) = elim (Bool-cases (j == k)) [
    | inl e ↦ rw e refl
    | inr e ↦ rw e (ap suc (length-write k v m))
  ]

  pub length-remove :
      (k : ℕ) (v : A) (m : List (ℕ × A))
      → lookup k m ≡ some v
      → suc (length (remove k m)) ≡ length m
  unfolding remove lookup
  length-remove k v [] e = cc
  length-remove k v ((j, w) ∷ m) e = elim (Bool-cases (j == k)) [
    | inl h ↦ rw h refl
    | inr h ↦ rw h (ap suc (length-remove k v m (rw h at e)))
  ]

  -- Each key has one entry.
  abbrev pub Unique : List (ℕ × A) → Type ℓ
  Unique [] = Unit
  Unique ((k, v) ∷ m) = (lookup k m ≡ none) × Unique m

  pub lookup-remove_other :
      (j k : ℕ) (m : List (ℕ × A)) → j ≢ k → lookup k (remove j m) ≡ lookup k m
  unfolding lookup remove
  lookup-remove_other j k [] ne = refl
  lookup-remove_other j k ((i, v) ∷ m) ne = elim (Bool-cases (i == j)) [
    | inl h ↦
        let other : i ≢ k = λ x. ne (sym ((==_iff i j).0 h) ∙ x) in rw (h, ==_ne i k other) refl
    | inr h ↦ elim (Bool-cases (i == k)) [
      | inl g ↦ rw (h, g) refl
      | inr g ↦ rw (h, g) (lookup-remove_other j k m ne)
    ]
  ]

  pub lookup-remove : (k : ℕ) (m : List (ℕ × A)) → Unique m → lookup k (remove k m) ≡ none
  unfolding lookup remove
  lookup-remove k [] u = refl
  lookup-remove k ((i, v) ∷ m) (one, u) = elim (Bool-cases (i == k)) [
    | inl h ↦ rw h (subst (λ j. lookup j m ≡ none) ((==_iff i k).0 h) one)
    | inr h ↦ rw (h, h) (lookup-remove k m u)
  ]

  pub Unique-remove : (k : ℕ) (m : List (ℕ × A)) → Unique m → Unique (remove k m)
  unfolding remove
  Unique-remove k [] u = tt
  Unique-remove k ((i, v) ∷ m) (one, u) = elim (Bool-cases (i == k)) [
    | inl h ↦ rw h u
    | inr h ↦
        let other : k ≢ i = λ x.
          let y = ==_refl k in
          let z : (k == k) ≡ false = (subst (λ j. (j == k) ≡ false) (sym x) h) in cc in
        rw h (lookup-remove_other k i m other ∙ one, Unique-remove k m u)
  ]

  Unique-write : (k : ℕ) (v : A) (m : List (ℕ × A)) → Unique m → Unique (write k v m)
  unfolding write
  Unique-write k v [] u = tt
  Unique-write k v ((j, w) ∷ m) (one, u) = elim (Bool-cases (j == k)) [
    | inl h ↦ rw h (one, u)
    | inr h ↦
        let ne : k ≢ j = λ x. let y = (==_iff j k).1 (sym x) in cc in
        rw h (lookup-write_other k j v m ne ∙ one, Unique-write k v m u)
  ]

  pub Unique-assign : (k : ℕ) (v : A) (m : List (ℕ × A)) → Unique m → Unique (assign k v m)
  unfolding assign
  Unique-assign k v m u = elim (Option-cases (lookup k m)) [
    | inl e ↦ rw (e, assign) (e, u)
    | inr (w, e) ↦ rw (e, assign) (Unique-write k v m u)
  ]

  module _ {κ} (P : ℕ → A → Type κ) where
    pub All-write :
        (k : ℕ) (v : A) (m : List (ℕ × A))
        → P k v
        → All (λ e. P e.0 e.1) m
        → All (λ e. P e.0 e.1) (write k v m)
    unfolding write
    All-write k v [] p a = tt
    All-write k v ((j, w) ∷ m) p (a, more) = elim (Bool-cases (j == k)) [
      | inl h ↦ rw h (subst (λ i. P i v) (sym ((==_iff j k).0 h)) p, more)
      | inr h ↦ rw h (a, All-write k v m p more)
    ]

    pub All-assign :
        (k : ℕ) (v : A) (m : List (ℕ × A))
        → P k v
        → All (λ e. P e.0 e.1) m
        → All (λ e. P e.0 e.1) (assign k v m)
    unfolding assign
    All-assign k v m p a = elim (Option-cases (lookup k m)) [
      | inl e ↦ rw (e, assign) (p, a)
      | inr (w, e) ↦ rw (e, assign) (All-write k v m p a)
    ]

    pub All-remove :
        (k : ℕ) (m : List (ℕ × A)) → All (λ e. P e.0 e.1) m → All (λ e. P e.0 e.1) (remove k m)
    unfolding remove
    All-remove k [] a = tt
    All-remove k ((j, w) ∷ m) (a, more) = elim (Bool-cases (j == k)) [
      | inl h ↦ rw h more
      | inr h ↦ rw h (a, All-remove k m more)
    ]

    pub All-insert_new :
        (k : ℕ) (v : A) (m : List (ℕ × A))
        → P k v
        → All (λ e. P e.0 e.1) m
        → All (λ e. P e.0 e.1) (insert_new k v m)
    All-insert_new k v m p a = elim (Option-cases (lookup k m)) [
      | inl e ↦ rw (insert_new-none k v m e) (p, a)
      | inr (w, e) ↦ rw (insert_new-some k v w m e) a
    ]

    pub All-lookup :
        (k : ℕ) (v : A) (m : List (ℕ × A)) → All (λ e. P e.0 e.1) m → lookup k m ≡ some v → P k v
    unfolding lookup
    All-lookup k v [] a e = cc
    All-lookup k v ((j, w) ∷ m) (a, more) e = elim (lookup-cons j k w v m e) [
      | inl (ej, ew) ↦ subst (λ i. P i v) ej (subst (P j) ew a)
      | inr f ↦ All-lookup k v m more f
    ]
