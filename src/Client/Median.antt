-- ===== src/Client/Median.antt =====
-- `client_ordering1_resp_cmd_handler`: the timestamp that the client picks.
use archipelago_hotstuff.Base.{
  ℕ, ◌+◌, ◌*◌, ◌%◌, ◌^◌, ◌≤◌, ◌<◌, ◌≡◌, refl, ap, ◌∙◌, none, some, List, [], ◌∷◌, ◌++◌, arith,
  Bool-cases, inl, inr, length, length-append, All, sort, nth, nth-lt, count_le, count_ge,
  count_le-sort, count_ge-sort, length-sort, sort-IsSorted, nth-count_le, nth-count_ge, ltb,
}
use archipelago_hotstuff.Client.{pick_timestamp}

-- The entry at index `i` of the sorted list, with its rank in the list itself.
nth-rank :
    (ts : List ℕ) (i : ℕ)
    → i < length ts
    → (m : ℕ) × (nth (sort ts) i ≡ some m)
      × (i + 1 ≤ count_le m ts)
      × (length ts ≤ count_ge m ts + i)
nth-rank ts i lt =
    let (m, e) = nth-lt (sort ts) i (omega (arith, length-sort ts)) in
    let lo = nth-count_le (sort ts) i m (sort-IsSorted ts) e in
    let hi = nth-count_ge (sort ts) i m (sort-IsSorted ts) e in
    (
      m,
      e,
      omega (arith, lo, count_le-sort m ts),
      omega (arith, hi, count_ge-sort m ts, length-sort ts),
    )

-- Of `2 * nfaulty + 1` timestamps with `nfaulty > 0`, the client picks one that at least
-- `nfaulty + 2` of them do not exceed and that does not exceed at least `nfaulty` of them.
pub pick_timestamp-rank :
    (nfaulty : ℕ) (ts : List ℕ)
    → 0 < nfaulty
    → nfaulty + 1 < 2 ^ 32
    → length ts ≡ nfaulty * 2 + 1
    → (m : ℕ) × (pick_timestamp nfaulty ts ≡ some m)
      × (nfaulty + 2 ≤ count_le m ts)
      × (nfaulty ≤ count_ge m ts)
unfolding pick_timestamp
pick_timestamp-rank f ts pos fits len =
    let i : (f + 1) % 2 ^ 32 ≡ f + 1 = omega arith in
    let (m, e, lo, hi) = nth-rank ts (f + 1) (omega (arith, len)) in
    (m, ap (nth (sort ts)) i ∙ e, omega arith, omega arith)

-- With no fault to tolerate, the client reads outside its one timestamp.
pub pick_timestamp-none : (t : ℕ) → pick_timestamp 0 (t ∷ []) ≡ none
unfolding pick_timestamp
pick_timestamp-none t = refl

count_le-append : (m : ℕ) (xs ys : List ℕ) → count_le m (xs ++ ys) ≡ count_le m xs + count_le m ys
count_le-append m [] ys = omega arith
count_le-append m (x ∷ xs) ys = omega (arith, count_le-append m xs ys)

count_ge-append : (m : ℕ) (xs ys : List ℕ) → count_ge m (xs ++ ys) ≡ count_ge m xs + count_ge m ys
count_ge-append m [] ys = omega arith
count_ge-append m (x ∷ xs) ys = omega (arith, count_ge-append m xs ys)

count_le-length : (m : ℕ) (xs : List ℕ) → count_le m xs ≤ length xs
count_le-length m [] = omega arith
count_le-length m (x ∷ xs) = let h = count_le-length m xs in ground (arith, h)

count_ge-length : (m : ℕ) (xs : List ℕ) → count_ge m xs ≤ length xs
count_ge-length m [] = omega arith
count_ge-length m (x ∷ xs) = let h = count_ge-length m xs in ground (arith, h)

count_le-above : (m b : ℕ) (xs : List ℕ) → m ≤ b → All (λ x. b < x) xs → count_le m xs ≡ 0
count_le-above m b [] h a = refl
count_le-above m b (x ∷ xs) h (a, more) =
    let i = count_le-above m b xs h more in ground (arith, i, a, h)

count_ge-below : (m b : ℕ) (xs : List ℕ) → b < m → All (λ x. x ≤ b) xs → count_ge m xs ≡ 0
count_ge-below m b [] h a = refl
count_ge-below m b (x ∷ xs) h (a, more) =
    let i = count_ge-below m b xs h more in ground (arith, i, a, h)

-- `nfaulty` replicas with timestamps above those of all `nfaulty + 1` others make the client pick
-- one of theirs. The entry one index below, the median, would still be one of the others'.
pub pick_timestamp-faulty :
    (nfaulty bound : ℕ) (others faulty : List ℕ)
    → 0 < nfaulty
    → nfaulty + 1 < 2 ^ 32
    → length others ≡ nfaulty + 1
    → length faulty ≡ nfaulty
    → All (λ t. t ≤ bound) others
    → All (λ t. bound < t) faulty
    → ((m : ℕ) × (pick_timestamp nfaulty (others ++ faulty) ≡ some m) × (bound < m))
      × ((m : ℕ) × (nth (sort (others ++ faulty)) nfaulty ≡ some m) × (m ≤ bound))
pick_timestamp-faulty f bound others faulty pos fits lo lf below above =
    let len = length-append others faulty in
    let (m, e, le, ge) = pick_timestamp-rank f (others ++ faulty) pos fits (omega arith) in
    let (n, e1, le1, ge1) = nth-rank (others ++ faulty) f (omega arith) in
    ((m, e, high m le), (n, e1, low n ge1))
  where
    high : (m : ℕ) → f + 2 ≤ count_le m (others ++ faulty) → bound < m
    high m le = elim (Bool-cases (ltb bound m)) [
      | inl h ↦ ground (arith, h)
      | inr h ↦
          let under : m ≤ bound = ground (arith, h) in
          absurd (
            omega (
              arith,
              le,
              count_le-append m others faulty,
              count_le-length m others,
              lo,
              count_le-above m bound faulty under above,
            ))
    ]

    low : (n : ℕ) → length (others ++ faulty) ≤ count_ge n (others ++ faulty) + f → n ≤ bound
    low n ge = elim (Bool-cases (ltb bound n)) [
      | inr h ↦ ground (arith, h)
      | inl h ↦
          let over : bound < n = ground (arith, h) in
          absurd (
            omega (
              arith,
              ge,
              length-append others faulty,
              count_ge-append n others faulty,
              lo,
              lf,
              count_ge-length n faulty,
              count_ge-below n bound others over below,
            ))
    ]
