-- ===== src/Archipelago/Follower.antt =====
-- The other replicas: `check_stable_point_index`.
use archipelago_hotstuff.Base.{
  ℕ, zero, suc, ◌+◌, ◌-◌, ◌%◌, ◌^◌, ◌≤◌, ◌<◌, ◌≡◌, refl, ap, ◌∙◌, subst, true, false, some, List,
  [], ◌∷◌, arith, ltb, leb, Bool-cases, inl, inr, length, All, take, drop, nth, nth-drop, All-drop,
  All-take-nth, All-drop-nth, drop-nth, length-drop, Permᴰ, Perm-length,
}
use mathlib.Core.List.Permᴰ as Permᴰ
use archipelago_hotstuff.Archipelago.State.{Entry, Replica, done, undefined}
use archipelago_hotstuff.Archipelago.Order.{sort_from, count_until}
use archipelago_hotstuff.Archipelago.Check.{splits, log_error, check_stable_point_index}
use archipelago_hotstuff.Archipelago.Sort.{IsSort, InOrder}
use archipelago_hotstuff.Archipelago.Sorting.{
  SortedFrom, sort_from-SortedFrom, count_until-Stops, count_low, Perm-count_low, high-count_low,
  All-above,
}
use archipelago_hotstuff.Archipelago.Batch.{CutsBatch}

-- The entries from index `n` on are divided by the time `limit` before index `idx`.
pub record Divides (limit n idx : ℕ) (es : List Entry) : Type 0 where
  pub inside : idx < length es
  pub low : All (λ e. e.timestamp ≤ limit) (take (idx - n) (drop n es))
  pub high : All (λ e. limit < e.timestamp) (drop (idx - n) (drop n es))

ordered-low :
    (limit i : ℕ) (d : Entry) (es : List Entry)
    → InOrder es
    → nth es i ≡ some d
    → d.timestamp ≤ limit
    → All (λ e. e.timestamp ≤ limit) (take (i + 1) es)
ordered-low limit i d [] o e h = cc
ordered-low limit zero d (x ∷ es) o e h =
    let same : x ≡ d = cc in (omega (arith, ap Entry.timestamp same, h), tt)
ordered-low limit (suc i) d (x ∷ es) (first, o) e h =
    let q : suc (i + 1) ≡ suc i + 1 = omega arith in
    let below : x.timestamp ≤ d.timestamp =
      All-drop-nth (λ y. x.timestamp ≤ y.timestamp) i d es
        (All-drop (λ y. x.timestamp ≤ y.timestamp) i es first) e in
    subst (λ k. All (λ y. y.timestamp ≤ limit) (take k (x ∷ es))) q
      (omega (arith, below, h), ordered-low limit i d es o e h)

ordered-high :
    (limit k : ℕ) (d : Entry) (es : List Entry)
    → InOrder es
    → nth es k ≡ some d
    → limit < d.timestamp
    → All (λ e. limit < e.timestamp) (drop k es)
ordered-high limit k d [] o e h = cc
ordered-high limit zero d (x ∷ es) (first, o) e h =
    let same : x ≡ d = cc in
    let above : limit < x.timestamp = omega (arith, ap Entry.timestamp same, h) in
    (above, All-above limit x.timestamp es above first)
ordered-high limit (suc k) d (x ∷ es) (first, o) e h = ordered-high limit k d es o e h

module _ (limit n idx : ℕ) (es : List Entry) (ordered : InOrder (drop n es))
    (fits : length es < 2 ^ 32) (up : n < idx) where
  -- The test is passed exactly by an index that divides the entries in time.
  Divides-splits : Divides limit n idx es → splits limit idx es ≡ true
  unfolding splits
  Divides-splits v =
      let (e, at_e, _) = drop-nth idx es v.inside in
      let (d, at_d, _) = drop-nth (idx - 1) es (omega (arith, v.inside)) in
      let move : (i : ℕ) → n ≤ i → nth (drop n es) (i - n) ≡ nth es i =
        λ i h. let q : n + (i - n) ≡ i = omega arith in nth-drop n (i - n) es ∙ ap (nth es) q in
      let above =
        All-drop-nth (λ x. limit < x.timestamp) (idx - n) e (drop n es) v.high
          (move idx (omega arith) ∙ at_e) in
      let below =
        All-take-nth (λ x. x.timestamp ≤ limit) (idx - n) (idx - 1 - n) d (drop n es) v.low
          (omega (arith, up)) (move (idx - 1) (omega arith) ∙ at_d) in
      let t1 : ltb idx (length es % 2 ^ 32) ≡ true = ground (arith, v.inside, fits) in
      let t2 : ltb limit e.timestamp ≡ true = ground (arith, above) in
      let t3 : ltb 0 idx ≡ true = ground (arith, up) in
      let t4 : leb d.timestamp limit ≡ true = ground (arith, below) in
      rw (at_e, at_d, t1, t2, t3, t4) refl

  splits-Divides : splits limit idx es ≡ true → Divides limit n idx es
  unfolding splits
  splits-Divides h = elim (Bool-cases (ltb idx (length es % 2 ^ 32))) [
    | inr out ↦ let no : false ≡ true = (rw out at h) in cc
    | inl t1 ↦
        let inside : idx < length es = ground (arith, t1, fits) in
        let (e, at_e, _) = drop-nth idx es inside in
        let (d, at_d, _) = drop-nth (idx - 1) es (omega (arith, inside)) in
        elim (Bool-cases (ltb limit e.timestamp)) [
          | inr f ↦ let no : false ≡ true = (rw (t1, at_e, f) at h) in cc
          | inl t2 ↦
              let t3 : ltb 0 idx ≡ true = ground (arith, up) in
              elim (Bool-cases (leb d.timestamp limit)) [
                | inr f ↦ let no : false ≡ true = (rw (t1, at_e, t2, t3, at_d, f) at h) in cc
                | inl t4 ↦
                    let move : (i : ℕ) → n ≤ i → nth (drop n es) (i - n) ≡ nth es i = λ i h.
                      let q : n + (i - n) ≡ i = omega arith in
                      nth-drop n (i - n) es ∙ ap (nth es) q in
                    let q : idx - 1 - n + 1 ≡ idx - n = omega (arith, up) in
                    record {
                      inside = inside;
                      low =
                          subst (λ k. All (λ x. x.timestamp ≤ limit) (take k (drop n es))) q
                            (ordered-low limit (idx - 1 - n) d (drop n es) ordered
                              (move (idx - 1) (omega arith) ∙ at_d) (ground (arith, t4)));
                      high =
                          ordered-high limit (idx - n) e (drop n es) ordered
                            (move idx (omega arith) ∙ at_e) (ground (arith, t2));
                    }
              ]
        ]
  ]

-- What a check does: it puts the commands behind the stable point in order, and moves the stable
-- point to the index that it is sent. It logs no error exactly if the index divides them in time.
pub record Checks (limit idx : ℕ) (s t : Replica) : Type 0 where
  pub sorted : SortedFrom s.stable_point_idx s.commit_set t.commit_set
  pub moved : t.stable_point_idx ≡ idx
  pub passes :
      Divides limit s.stable_point_idx idx t.commit_set
      → t.stable_point_errors ≡ s.stable_point_errors
  pub fails :
      (¬ Divides limit s.stable_point_idx idx t.commit_set)
      → t.stable_point_errors ≡ (limit, idx) ∷ s.stable_point_errors

-- Sorting from behind the end of the commit set is undefined.
check-undefined :
    (sort : List Entry → List Entry) (limit idx : ℕ) (s : Replica)
    → length s.commit_set < s.stable_point_idx
    → s.stable_point_idx < idx
    → check_stable_point_index sort limit idx s ≡ undefined
unfolding check_stable_point_index sort_from
check-undefined sort limit idx s past more =
    let up : ltb s.stable_point_idx idx ≡ true = ground (arith, more) in
    let out : leb s.stable_point_idx (length s.commit_set) ≡ false = ground (arith, past) in
    rw (up, check_stable_point_index, out, sort_from) refl

module _ (sort : List Entry → List Entry) (law : IsSort sort) where
  -- With a sort that does what it is to do, the check of an index above the stable point, on a commit
  -- set of fewer than 2^32 entries that reaches the stable point, ends, and does what `Checks` says.
  pub check_stable_point_index-Checks :
      (limit idx : ℕ) (s : Replica)
      → s.stable_point_idx ≤ length s.commit_set
      → length s.commit_set < 2 ^ 32
      → s.stable_point_idx < idx
      → (t : Replica) × (check_stable_point_index sort limit idx s ≡ done t) × Checks limit idx s t
  unfolding check_stable_point_index log_error
  check_stable_point_index-Checks limit idx s h fits more =
      let (es, e, f) = sort_from-SortedFrom sort law s.stable_point_idx s.commit_set h in
      let up : ltb s.stable_point_idx idx ≡ true = ground (arith, more) in
      let small : length es < 2 ^ 32 = omega (arith, f.size, fits) in
      let u : Replica = record s { commit_set = es; stable_point_idx = idx } in
      elim (Bool-cases (splits limit idx es)) [
        | inl y ↦ (
          u,
          rw (up, e, check_stable_point_index, y) refl,
          record {
            sorted = f;
            moved = refl;
            passes = λ _. refl;
            fails = λ no.
                absurd (no (splits-Divides limit s.stable_point_idx idx es f.ordered small more y));
          },
        )
        | inr n ↦ (
          record u { stable_point_errors = (limit, idx) ∷ s.stable_point_errors },
          rw (up, e, check_stable_point_index, n) refl,
          record {
            sorted = f;
            moved = refl;
            passes = λ v.
                let y = Divides-splits limit s.stable_point_idx idx es f.ordered small more v in cc;
            fails = λ _. refl;
          },
        )
      ]

  -- A replica that is sent an index past the end of its commit set takes it: the next index above
  -- that one makes it sort from behind the end.
  pub check_stable_point_index-past :
      (limit idx limit' idx' : ℕ) (s : Replica)
      → s.stable_point_idx ≤ length s.commit_set
      → length s.commit_set < 2 ^ 32
      → length s.commit_set < idx
      → idx < idx'
      → (t : Replica) × (check_stable_point_index sort limit idx s ≡ done t)
        × (check_stable_point_index sort limit' idx' t ≡ undefined)
  check_stable_point_index-past limit idx limit' idx' s h fits past more =
      let (t, e, c) = check_stable_point_index-Checks limit idx s h fits (omega arith) in
      (
        t,
        e,
        check-undefined sort limit' idx' t (omega (arith, c.moved, c.sorted.size, past))
            (omega (arith, c.moved, more)),
      )

  divided-count_low :
      (limit k : ℕ) (es : List Entry)
      → k ≤ length es
      → All (λ e. e.timestamp ≤ limit) (take k es)
      → All (λ e. limit < e.timestamp) (drop k es)
      → count_low limit es ≡ k
  divided-count_low limit zero es h low high = high-count_low limit es high
  divided-count_low limit (suc k) [] h low high = absurd (omega arith)
  divided-count_low limit (suc k) (e ∷ es) h (first, low) high =
      let rest = divided-count_low limit k es (omega arith) low high in ground (arith, first, rest)

  -- A replica passes the check for a batch of the leader without an error, if its stable point is the
  -- leader's, it has the same commands behind it in any order, fewer than 2^32 in all, and the batch
  -- is not empty and leaves some commands; its stable point moves to the end of the batch.
  pub check_stable_point_index-CutsBatch :
      (digest : ℕ → ℕ → ℕ) (limit : ℕ) (s t r : Replica)
      → CutsBatch digest limit s t
      → s.stable_point_idx < t.stable_point_idx
      → t.stable_point_idx < length t.commit_set
      → r.stable_point_idx ≡ s.stable_point_idx
      → r.stable_point_idx ≤ length r.commit_set
      → length r.commit_set < 2 ^ 32
      → Permᴰ (drop r.stable_point_idx r.commit_set) (drop s.stable_point_idx s.commit_set)
      → (u : Replica) × (check_stable_point_index sort limit t.stable_point_idx r ≡ done u)
        × (u.stable_point_errors ≡ r.stable_point_errors)
        × (u.stable_point_idx ≡ t.stable_point_idx)
        × Permᴰ (drop r.stable_point_idx u.commit_set) (drop s.stable_point_idx t.commit_set)
  check_stable_point_index-CutsBatch digest limit s t r c some_in some_left same h fits perm =
      let (u, e, k) =
        check_stable_point_index-Checks limit t.stable_point_idx r h fits (omega arith) in
      let n = r.stable_point_idx in
      let us = drop n u.commit_set in
      let ts = drop s.stable_point_idx t.commit_set in
      let p : Permᴰ us ts = Permᴰ.trans (Permᴰ.symm k.sorted.permuted) (Permᴰ.trans perm c.same) in
      let lu = length-drop n u.commit_set in
      let lt = length-drop s.stable_point_idx t.commit_set in
      let st = count_until-Stops limit us k.sorted.ordered in
      let low =
        divided-count_low limit (t.stable_point_idx - s.stable_point_idx) ts
          (omega (arith, lt, some_left)) c.batch c.rest in
      let q : count_until limit us ≡ t.stable_point_idx - n =
        omega (arith, st.counts, Perm-count_low limit p, low, same) in
      let v : Divides limit n t.stable_point_idx u.commit_set = record {
        inside = omega (arith, lu, lt, Perm-length p, some_left, some_in, same);
        low = subst (λ i. All (λ x. x.timestamp ≤ limit) (take i us)) q st.low;
        high = subst (λ i. All (λ x. limit < x.timestamp) (drop i us)) q st.high;
      } in
      (u, e, k.passes v, k.moved, p)
