-- ===== src/Archipelago/Batch.antt =====
-- How the leader cuts a batch off its commit set.
use archipelago_hotstuff.Base.{
  ℕ, ◌+◌, ◌-◌, ◌%◌, ◌^◌, ◌≤◌, ◌<◌, ◌≡◌, refl, sym, ap, ◌∙◌, subst, some, List, ◌∷◌, arith, length,
  assign, All, take, drop, nth, nth-lt, length-drop, Permᴰ,
}
use archipelago_hotstuff.Archipelago.State.{Entry, Replica, Consensus, done}
use archipelago_hotstuff.Archipelago.Order.{
  count_until, next_stable_point_idx, cmd_of, start_batch, cut_batch, batch_end,
}
use archipelago_hotstuff.Archipelago.Sort.{IsSort, InOrder}
use archipelago_hotstuff.Archipelago.Sorting.{
  SortedFrom, sort_from-SortedFrom, count_until-Stops, next_stable_point_idx-small,
}

-- `t` is `s` with a batch of the entries up to the time `limit` cut off.
pub record CutsBatch (digest : ℕ → ℕ → ℕ) (limit : ℕ) (s t : Replica) : Type 0 where
  pub grows : s.stable_point_idx ≤ t.stable_point_idx
  pub within : t.stable_point_idx ≤ length t.commit_set
  pub kept : take s.stable_point_idx t.commit_set ≡ take s.stable_point_idx s.commit_set
  pub same : Permᴰ (drop s.stable_point_idx s.commit_set) (drop s.stable_point_idx t.commit_set)
  pub batch :
      All
        (λ e. e.timestamp ≤ limit)
        (take (t.stable_point_idx - s.stable_point_idx) (drop s.stable_point_idx t.commit_set))
  pub rest :
      All
        (λ e. limit < e.timestamp)
        (drop (t.stable_point_idx - s.stable_point_idx) (drop s.stable_point_idx t.commit_set))
  pub ordered : InOrder (drop s.stable_point_idx t.commit_set)
  pub sends :
      (msg : Consensus) × (t.multicast ≡ msg ∷ s.multicast)
      × (msg.stable_timestamp ≡ limit)
      × (msg.stable_idx ≡ t.stable_point_idx)
      × (msg.commit_set_hash ≡ cmd_of digest s 4)
  pub remembers :
      t.exec_client_rsp
      ≡ assign (cmd_of digest s 4) (s.stable_point_idx, t.stable_point_idx) s.exec_client_rsp
  pub leaves :
      (t.cmd_cnt ≡ (s.cmd_cnt + 5) % 2 ^ 32)
      × (t.stable_point ≡ s.stable_point)
      × (t.ordering2 ≡ s.ordering2)

module _ (digest : ℕ → ℕ → ℕ) (sort : List Entry → List Entry) (law : IsSort sort) where
  start_batch-CutsBatch :
      (limit : ℕ) (s : Replica) (es : List Entry)
      → s.stable_point_idx ≤ length s.commit_set
      → length s.commit_set < 2 ^ 32
      → SortedFrom s.stable_point_idx s.commit_set es
      → CutsBatch digest limit s (start_batch digest limit es s)
  unfolding start_batch
  start_batch-CutsBatch limit s es h fits f =
      let n = s.stable_point_idx in
      let st = count_until-Stops limit (drop n es) f.ordered in
      let e = next_stable_point_idx-small limit n es (omega (arith, f.size, fits)) in
      let d : next_stable_point_idx limit n es - n ≡ count_until limit (drop n es) =
        omega (arith, e) in
      record {
        grows = omega (arith, e);
        within = omega (arith, e, st.within, length-drop n es, f.size, h);
        kept = f.kept;
        same = f.permuted;
        batch = subst (λ k. All (λ x. x.timestamp ≤ limit) (take k (drop n es))) (sym d) st.low;
        rest = subst (λ k. All (λ x. limit < x.timestamp) (drop k (drop n es))) (sym d) st.high;
        ordered = f.ordered;
        sends = (_, refl, refl, refl, refl);
        remembers = refl;
        leaves = (refl, refl, refl);
      }

  -- With a sort that does what it is to do, a batch is cut off a commit set with entries, fewer than
  -- 2^32, that holds the stable prefix: the code reads nothing outside the commit set, leaves the
  -- prefix as it was, puts the other entries in order, takes exactly those up to the period before
  -- the last one into the batch, sends its end to the replicas and remembers its bounds.
  pub cut_batch-CutsBatch :
      (s : Replica)
      → s.stable_point_idx ≤ length s.commit_set
      → 0 < length s.commit_set
      → length s.commit_set < 2 ^ 32
      → (last : Entry) × (t : Replica) × (cut_batch digest sort s ≡ done t)
        × (nth t.commit_set (length t.commit_set - 1) ≡ some last)
        × CutsBatch digest (batch_end s last) s t
  unfolding cut_batch start_batch
  cut_batch-CutsBatch s h pos fits =
      let (es, e, f) = sort_from-SortedFrom sort law s.stable_point_idx s.commit_set h in
      let i : (length es % 2 ^ 32 + 2 ^ 32 - 1) % 2 ^ 32 ≡ length es - 1 =
        omega (arith, f.size, pos, fits) in
      let (last, at_end) = nth-lt es (length es - 1) (omega (arith, f.size, pos)) in
      let at_i = ap (nth es) i ∙ at_end in
      let limit = batch_end s last in
      (
        last,
        start_batch digest limit es s,
        rw (e, at_i, cut_batch) refl,
        at_end,
        start_batch-CutsBatch limit s es h fits f,
      )
