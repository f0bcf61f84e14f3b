-- ===== src/Archipelago/Leader.antt =====
-- The leader through the commands that clients have it order.
use archipelago_hotstuff.Base.{
  ℕ, ◌+◌, ◌*◌, ◌%◌, ◌^◌, ◌≤◌, ◌<◌, ◌≡◌, ◌≢◌, refl, sym, ap, ◌∙◌, subst, false, none, some, List, [],
  ◌∷◌, ◌++◌, arith, ltb, ◌==◌, Bool-cases, inl, inr, length, length-append, lookup, lookup-absent,
  lookup-other, assign-absent, All, take, take-append, Permᴰ, Perm-glue,
}
use mathlib.Core.List.Permᴰ as Permᴰ
use archipelago_hotstuff.Archipelago.State.{Entry, Replica, done}
use archipelago_hotstuff.Archipelago.Order.{cmd_of, tick, on_ordering2_request, batch_end}
use archipelago_hotstuff.Archipelago.Sort.{IsSort}
use archipelago_hotstuff.Archipelago.Batch.{CutsBatch, cut_batch-CutsBatch}

-- Batches, newest first, that divide the indices below `n`.
abbrev pub Consecutive : List (ℕ × (ℕ × ℕ)) → ℕ → Type 0
Consecutive [] n = n ≡ 0
Consecutive ((h, (a, b)) ∷ m) n = (b ≡ n) × (a ≤ b) × Consecutive m a

-- `h` is the hash of a batch that was cut before the count of commands was `n`.
abbrev pub Earlier : (ℕ → ℕ → ℕ) → ℕ → ℕ → Type 0
Earlier digest n h = (m : ℕ) × (m < n) × (h ≡ digest 4 m)

-- The commit set holds the stable prefix, which the batches divide.
pub record Archived (digest : ℕ → ℕ → ℕ) (s : Replica) : Type 0 where
  pub point : s.stable_point ≡ 0
  pub within : s.stable_point_idx ≤ length s.commit_set
  pub batches : Consecutive s.exec_client_rsp s.stable_point_idx
  pub keys : All (λ e. Earlier digest s.cmd_cnt e.0) s.exec_client_rsp

-- `t` has the stable prefix of `s` and its batches.
pub record ExtendsPrefix (s t : Replica) : Type 0 where
  pub grows : s.stable_point_idx ≤ t.stable_point_idx
  pub prefix : take s.stable_point_idx t.commit_set ≡ take s.stable_point_idx s.commit_set
  pub remembers :
      (h : ℕ) (p : ℕ × ℕ)
      → lookup h s.exec_client_rsp ≡ some p
      → lookup h t.exec_client_rsp ≡ some p

-- Hashes of batches do not collide.
abbrev pub NoCollision : (ℕ → ℕ → ℕ) → Type 0
NoCollision digest = (a b : ℕ) → digest 4 a ≡ digest 4 b → a ≡ b

module _ (digest : ℕ → ℕ → ℕ) (inj : NoCollision digest) where
  weaken-Earlier :
      (a b : ℕ) (m : List (ℕ × (ℕ × ℕ)))
      → a ≤ b
      → All (λ e. Earlier digest a e.0) m
      → All (λ e. Earlier digest b e.0) m
  weaken-Earlier a b [] h all = tt
  weaken-Earlier a b (e ∷ m) h ((n, lt, same), all) =
      ((n, omega arith, same), weaken-Earlier a b m h all)

  fresh-Earlier :
      (n k : ℕ) (m : List (ℕ × (ℕ × ℕ)))
      → n ≤ k
      → All (λ e. Earlier digest n e.0) m
      → All (λ e. e.0 ≢ digest 4 k) m
  fresh-Earlier n k [] h all = tt
  fresh-Earlier n k (e ∷ m) h ((i, lt, same), all) =
      ((λ x. let y = inj i k (sym same ∙ x) in omega (arith, y, lt, h)), fresh-Earlier n k m h all)

  fresh-lookup :
      (s : Replica)
      → Archived digest s
      → s.cmd_cnt + 5 < 2 ^ 32
      → lookup (cmd_of digest s 4) s.exec_client_rsp ≡ none
  fresh-lookup s inv fits = lookup-absent _ _ (
      fresh-Earlier s.cmd_cnt ((s.cmd_cnt + 4) % 2 ^ 32) s.exec_client_rsp (omega (arith, fits))
        inv.keys)

  -- The batch keeps the leader's state in order and its prefix as it was.
  cut-Archived :
      (limit : ℕ) (s t : Replica)
      → Archived digest s
      → s.cmd_cnt + 5 < 2 ^ 32
      → CutsBatch digest limit s t
      → Archived digest t
  cut-Archived limit s t inv fits c =
      let (cnt, pt, _) = c.leaves in
      let e = c.remembers ∙ assign-absent _ _ s.exec_client_rsp (fresh-lookup s inv fits) in
      record {
        point = pt ∙ inv.point;
        within = c.within;
        batches =
            subst (λ m. Consecutive m t.stable_point_idx) (sym e) (refl, c.grows, inv.batches);
        keys =
            subst (λ m. All (λ x. Earlier digest t.cmd_cnt x.0) m) (sym e)
              (
                ((s.cmd_cnt + 4) % 2 ^ 32, omega (arith, cnt, fits), refl),
                weaken-Earlier s.cmd_cnt t.cmd_cnt s.exec_client_rsp (omega (arith, cnt, fits))
                    inv.keys,
              );
      }

  cut-ExtendsPrefix :
      (limit : ℕ) (s t : Replica)
      → Archived digest s
      → s.cmd_cnt + 5 < 2 ^ 32
      → CutsBatch digest limit s t
      → ExtendsPrefix s t
  cut-ExtendsPrefix limit s t inv fits c =
      let none_yet = fresh-lookup s inv fits in
      let e = c.remembers ∙ assign-absent _ _ s.exec_client_rsp none_yet in
      record {
        grows = c.grows;
        prefix = c.kept;
        remembers = λ h p found.
            let other : cmd_of digest s 4 ≢ h =
              λ x. let absent = subst (λ k. lookup k s.exec_client_rsp ≡ none) x none_yet in cc in
            ap (lookup h) e ∙ lookup-other _ h _ s.exec_client_rsp other ∙ found;
      }

  -- What a step of the leader promises: its state is in order, the stable prefix and the batches are
  -- as they were, no command is lost or made up, and the client gets its answer.
  pub record Orders (e : Entry) (s t : Replica) : Type 0 where
    pub inv : Archived digest t
    pub extends : ExtendsPrefix s t
    pub stores : Permᴰ (s.commit_set ++ e ∷ []) t.commit_set
    pub answers : t.ordering2 ≡ (e.cmd_hash, e.addr) ∷ s.ordering2

  -- The leader with a new entry and a time of its last batch.
  abbrev pushed : Entry → ℕ → Replica → Replica
  pushed e clock s = record s {
    commit_set = s.commit_set ++ e ∷ [];
    ordering2 = (e.cmd_hash, e.addr) ∷ s.ordering2;
    exec_last_batch_clock = clock;
  }

  pushed-Orders :
      (e : Entry) (clock : ℕ) (s : Replica) → Archived digest s → Orders e s (pushed e clock s)
  pushed-Orders e clock s inv = record {
    inv = record {
      point = inv.point;
      within = omega (arith, inv.within, length-append s.commit_set (e ∷ []));
      batches = inv.batches;
      keys = inv.keys;
    };
    extends = record {
      grows = omega arith;
      prefix = take-append s.stable_point_idx s.commit_set (e ∷ []) inv.within;
      remembers = λ h p found. found;
    };
    stores = Permᴰ.refl (s.commit_set ++ e ∷ []);
    answers = refl;
  }

  then-Orders :
      (e : Entry) (limit clock : ℕ) (s t : Replica)
      → Archived digest s
      → s.cmd_cnt + 5 < 2 ^ 32
      → CutsBatch digest limit (pushed e clock s) t
      → Orders e s t
  then-Orders e limit clock s t inv fits c =
      let o = pushed-Orders e clock s inv in
      let x = cut-ExtendsPrefix limit (pushed e clock s) t o.inv fits c in
      let (_, _, acks) = c.leaves in
      record {
        inv = cut-Archived limit (pushed e clock s) t o.inv fits c;
        extends = record {
          grows = x.grows;
          prefix = x.prefix ∙ o.extends.prefix;
          remembers = x.remembers;
        };
        stores = Perm-glue s.stable_point_idx (s.commit_set ++ e ∷ []) t.commit_set c.kept c.same;
        answers = acks;
      }

  module _ (sort : List Entry → List Entry) (law : IsSort sort) where
    tick-Orders :
        (now : ℕ) (e : Entry) (s : Replica)
        → Archived digest s
        → length s.commit_set + 1 < 2 ^ 32
        → s.cmd_cnt + 5 < 2 ^ 32
        → (t : Replica) × (tick digest sort now (pushed e s.exec_last_batch_clock s) ≡ done t)
          × Orders e s t
    unfolding tick
    tick-Orders now e s inv small fits = elim (Bool-cases (s.exec_last_batch_clock == 0)) [
      | inl first ↦ (pushed e now s, rw (first, tick) refl, pushed-Orders e now s inv)
      | inr started ↦
          elim (Bool-cases
            (ltb ((s.exec_last_batch_clock + (s.stable_period * 1000) % 2 ^ 32) % 2 ^ 64) now)) [
              | inr early ↦ (
                pushed e s.exec_last_batch_clock s,
                rw (started, early, tick) refl,
                pushed-Orders e s.exec_last_batch_clock s inv,
              )
              | inl due ↦
                  let n = length-append s.commit_set (e ∷ []) in
                  let (last, t, cut, at_end, c) =
                    cut_batch-CutsBatch digest sort law (pushed e now s)
                      (omega (arith, n, inv.within)) (omega (arith, n)) (omega (arith, n, small)) in
                  (
                    t,
                    rw (started, due, tick) cut,
                    then-Orders e (batch_end (pushed e now s) last) now s t inv fits c,
                  )
            ]
    ]

    -- A replica whose state is in order takes a command of a client, with fewer than 2^32 commands,
    -- hashes of batches that do not collide, and a sort that does what it is to do: the assertion
    -- holds, nothing outside the commit set is read, and the state stays in order, at the leader too,
    -- which may cut a batch: the stable prefix and the batches so far are as they were, the command
    -- is stored beside the others, and its client gets an answer.
    pub on_ordering2_request-Orders :
        (now : ℕ) (e : Entry) (s : Replica)
        → Archived digest s
        → length s.commit_set + 1 < 2 ^ 32
        → s.cmd_cnt + 5 < 2 ^ 32
        → (t : Replica) × (on_ordering2_request digest sort now e s ≡ done t) × Orders e s t
    unfolding on_ordering2_request
    on_ordering2_request-Orders now e s inv small fits =
        let passes : ltb e.timestamp s.stable_point ≡ false = ground (arith, inv.point) in
        elim (Bool-cases (s.id == 1)) [
          | inl leads ↦
              let (t, ticks, o) = tick-Orders now e s inv small fits in
              (t, rw (passes, leads, on_ordering2_request) ticks, o)
          | inr follows ↦ (
            pushed e s.exec_last_batch_clock s,
            rw (passes, follows, on_ordering2_request) refl,
            pushed-Orders e s.exec_last_batch_clock s inv,
          )
        ]
