-- ===== src/Archipelago/Sorting.antt =====
-- The sorted part of the commit set, and the loop over it.
use archipelago_hotstuff.Base.{
  ℕ, ◌+◌, ◌%◌, ◌^◌, ◌≤◌, ◌<◌, ◌≡◌, refl, sym, ap, ◌∙◌, subst, true, some, List, [], ◌∷◌, ◌++◌,
  arith, ltb, leb, Bool-cases, inl, inr, if◌then◌else◌, length, length-append, All, take, drop,
  length-take, length-drop, take-exact, drop-exact, take-all, Permᴰ, Perm-length,
}
use archipelago_hotstuff.Archipelago.State.{Entry}
use archipelago_hotstuff.Archipelago.Order.{sort_from, count_until, next_stable_point_idx}
use archipelago_hotstuff.Archipelago.Sort.{IsSort, InOrder}

-- `as` is `es` with the entries from index `n` on put in order.
pub record SortedFrom (n : ℕ) (es as1 : List Entry) : Type 0 where
  pub size : length as1 ≡ length es
  pub kept : take n as1 ≡ take n es
  pub permuted : Permᴰ (drop n es) (drop n as1)
  pub ordered : InOrder (drop n as1)

pub sort_from-SortedFrom :
    (sort : List Entry → List Entry)
    → IsSort sort
    → (n : ℕ) (es : List Entry) → n ≤ length es
    → (as1 : List Entry) × (sort_from sort n es ≡ some as1) × SortedFrom n es as1
unfolding sort_from
sort_from-SortedFrom sort law n es h =
    let yes : leb n (length es) ≡ true = ground (arith, h) in
    let a = length-take n es h in
    let d = drop-exact n (take n es) (sort (drop n es)) a in
    (
      take n es ++ sort (drop n es),
      rw yes refl,
      record {
        size =
            length-append (take n es) (sort (drop n es))
            ∙ omega (arith, a, length-drop n es, Perm-length (law.permutes (drop n es)), h);
        kept = take-exact n (take n es) (sort (drop n es)) a;
        permuted = subst (Permᴰ (drop n es)) (sym d) (law.permutes (drop n es));
        ordered = subst InOrder (sym d) (law.orders (drop n es));
      },
    )

abbrev weight : ℕ → Entry → ℕ
weight limit e = if ltb limit e.timestamp then 0 else 1

-- How many entries are not above the limit.
abbrev pub count_low : ℕ → List Entry → ℕ
count_low limit [] = 0
count_low limit (e ∷ es) = weight limit e + count_low limit es

pub Perm-count_low :
    (limit : ℕ) {es as1 : List Entry} → Permᴰ es as1 → count_low limit es ≡ count_low limit as1
Perm-count_low limit Permᴰ.nil = refl
Perm-count_low limit (Permᴰ.cons e d) =
    let h = Perm-count_low limit d in let i = ap (weight limit) e in omega (arith, h, i)
Perm-count_low limit (Permᴰ.swap e f) =
    let x = ap (weight limit) e in let y = ap (weight limit) f in omega (arith, x, y)
Perm-count_low limit (Permᴰ.trans d f) = Perm-count_low limit d ∙ Perm-count_low limit f

pub high-count_low :
    (limit : ℕ) (es : List Entry) → All (λ e. limit < e.timestamp) es → count_low limit es ≡ 0
high-count_low limit [] a = refl
high-count_low limit (e ∷ es) (a, more) = let h = high-count_low limit es more in ground (arith, h)

pub All-above :
    (limit low : ℕ) (es : List Entry)
    → limit < low
    → All (λ e. low ≤ e.timestamp) es
    → All (λ e. limit < e.timestamp) es
All-above limit low [] h a = tt
All-above limit low (e ∷ es) h (a, more) = (omega arith, All-above limit low es h more)

-- In a list in order, the loop stops behind the entries that are not above the limit.
pub record Stops (limit n : ℕ) (es : List Entry) : Type 0 where
  pub counts : n ≡ count_low limit es
  pub within : n ≤ length es
  pub low : All (λ e. e.timestamp ≤ limit) (take n es)
  pub high : All (λ e. limit < e.timestamp) (drop n es)

pub count_until-Stops :
    (limit : ℕ) (es : List Entry) → InOrder es → Stops limit (count_until limit es) es
unfolding count_until
count_until-Stops limit [] o = record { counts = refl; within = omega arith; low = tt; high = tt }
count_until-Stops limit (e ∷ es) (first, o) = elim (Bool-cases (ltb limit e.timestamp)) [
  | inl y ↦
      let above : limit < e.timestamp = ground (arith, y) in
      let all = All-above limit e.timestamp es above first in
      rw y (record {
        counts = sym (high-count_low limit (e ∷ es) (above, all));
        within = omega arith;
        low = tt;
        high = (above, all);
      })
  | inr n ↦
      let s = count_until-Stops limit es o in
      rw n (record {
        counts = ground (arith, s.counts, n);
        within = omega (arith, s.within);
        low = (ground (arith, n), s.low);
        high = s.high;
      })
]

-- Fewer than 2^32 entries are all seen by the loop.
pub next_stable_point_idx-small :
    (limit n : ℕ) (es : List Entry)
    → length es < 2 ^ 32
    → next_stable_point_idx limit n es ≡ n + count_until limit (drop n es)
unfolding next_stable_point_idx
next_stable_point_idx-small limit n es fits =
    ap (λ xs. n + count_until limit (drop n xs))
      (take-all (length es % 2 ^ 32) es (omega (arith, fits)))
