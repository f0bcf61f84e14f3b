-- ===== src/Bench/Filling.antt =====
-- `try_send` and the loop over it.
use archipelago_hotstuff.Base.{
  ℕ, zero, suc, ◌+◌, ◌-◌, ◌^◌, ◌≤◌, ◌<◌, ◌≡◌, refl, ap, ◌∙◌, false, none, some, ◌∷◌, arith, ltb,
  Bool-cases, inl, inr, ◌⊎◌, length, lookup, insert_new-none, lookup-other, ◌≢◌, List,
}
use archipelago_hotstuff.Bench.{
  Bencher, send_new, has_room, send_rounds, send_new_all, send_command, may_send,
}

-- The messages of `n` commands, from the `k`-th on.
abbrev pub send_range : (ℕ → ℕ → ℕ) → List ℕ → (cid k n : ℕ) → List (ℕ × ℕ) → List (ℕ × ℕ)
send_range digest conns cid k zero out = out
send_range digest conns cid k (suc n) out =
    send_range digest conns cid (k + 1) n (send_command conns (digest cid k) out)

-- The hashes of the commands to come are not waiting.
abbrev pub IsFresh : (ℕ → ℕ → ℕ) → Bencher → Type 0
IsFresh digest c = (i : ℕ) → c.cnt + i < 2 ^ 32 → lookup (digest c.cid (c.cnt + i)) c.waiting ≡ none

-- Different commands have different hashes.
abbrev pub IsInjective : (ℕ → ℕ → ℕ) → Type 0
IsInjective digest = (cid a b : ℕ) → digest cid a ≡ digest cid b → a ≡ b

-- How the loop ends: the requests are as many as may wait, or no more may be sent; `new` commands
-- have been sent to every replica, each one counted and waiting.
pub record Filled (digest : ℕ → ℕ → ℕ) (c t : Bencher) : Type 0 where
  pub stops : (t.max_async_num ≤ length t.waiting) ⊎ (may_send t.max_iter_num ≡ false)
  pub new : ℕ
  pub counted : t.cnt ≡ c.cnt + new
  pub waits : length t.waiting ≡ length c.waiting + new
  pub sent : t.commands ≡ send_range digest c.conns c.cid c.cnt new c.commands
  pub elapsed : t.elapsed ≡ c.elapsed
  pub others :
      (k : ℕ)
      → ((i : ℕ) → c.cnt + i < 2 ^ 32 → digest c.cid (c.cnt + i) ≢ k)
      → lookup k t.waiting ≡ lookup k c.waiting

module _ (digest : ℕ → ℕ → ℕ) (inj : IsInjective digest) where
  next-waiting :
      (c : Bencher)
      → c.cnt + 1 < 2 ^ 32
      → IsFresh digest c
      → (send_new digest c).waiting ≡ (digest c.cid c.cnt, 0) ∷ c.waiting
  unfolding send_new
  next-waiting c fits fresh =
      let e : c.cnt ≡ c.cnt + 0 = omega arith in
      insert_new-none _ _ _ (ap (λ n. lookup (digest c.cid n) c.waiting) e ∙ fresh 0 (omega arith))

  next-cnt : (c : Bencher) → c.cnt + 1 < 2 ^ 32 → (send_new digest c).cnt ≡ c.cnt + 1
  unfolding send_new
  next-cnt c fits = omega arith

  next-IsFresh :
      (c : Bencher) → c.cnt + 1 < 2 ^ 32 → IsFresh digest c → IsFresh digest (send_new digest c)
  unfolding send_new
  next-IsFresh c fits fresh i lt =
      let e : (send_new digest c).cnt + i ≡ c.cnt + suc i = omega (arith, next-cnt c fits) in
      let ne : digest c.cid c.cnt ≢ digest c.cid (c.cnt + suc i) =
        λ x. let y = inj c.cid c.cnt (c.cnt + suc i) x in omega (arith, y) in
      ap (λ n. lookup (digest c.cid n) (send_new digest c).waiting) e
      ∙ ap (lookup (digest c.cid (c.cnt + suc i))) (next-waiting c fits fresh)
      ∙ lookup-other _ _ 0 c.waiting ne
      ∙ fresh (suc i) (omega (arith, e, lt))

  still-Filled :
      (c : Bencher)
      → (c.max_async_num ≤ length c.waiting) ⊎ (may_send c.max_iter_num ≡ false)
      → Filled digest c c
  still-Filled c stops = record {
    stops = stops;
    new = 0;
    counted = omega arith;
    waits = omega arith;
    sent = refl;
    elapsed = refl;
    others = λ k other. refl;
  }

  next-Filled :
      (c t : Bencher)
      → c.cnt + 1 < 2 ^ 32
      → IsFresh digest c
      → Filled digest (send_new digest c) t
      → Filled digest c t
  unfolding send_new
  next-Filled c t fits fresh f =
      let w = ap length (next-waiting c fits fresh) in
      let n = next-cnt c fits in
      record {
        stops = f.stops;
        new = suc f.new;
        counted = omega (arith, f.counted, n);
        waits = omega (arith, f.waits, w);
        sent =
            f.sent
            ∙ ap
                (λ k.
                  send_range digest c.conns c.cid k f.new
                    (send_command c.conns (digest c.cid c.cnt) c.commands))
                n;
        elapsed = f.elapsed;
        others = λ k other.
            let zeroth : c.cnt + 0 ≡ c.cnt = omega arith in
            let ne : digest c.cid c.cnt ≢ k =
              λ x. other 0 (omega arith) (ap (digest c.cid) zeroth ∙ x) in
            f.others k (λ i lt x.
              let e : (send_new digest c).cnt + i ≡ c.cnt + suc i = omega (arith, n) in
              let back : c.cnt + suc i ≡ (send_new digest c).cnt + i = omega (arith, n) in
              other (suc i) (omega (arith, e, lt)) (ap (digest c.cid) back ∙ x))
            ∙ ap (lookup k) (next-waiting c fits fresh)
            ∙ lookup-other _ _ 0 c.waiting ne;
      }

  same_max : (c : Bencher) → (send_new digest c).max_async_num ≡ c.max_async_num
  unfolding send_new
  same_max c = refl

  -- The loop ends within the rounds that it is given.
  send_rounds-Filled :
      (fuel : ℕ) (c : Bencher)
      → c.max_async_num - length c.waiting < fuel
      → IsFresh digest c
      → c.cnt + fuel < 2 ^ 32
      → (t : Bencher) × (send_rounds digest fuel c ≡ some t) × Filled digest c t
  unfolding send_rounds has_room
  send_rounds-Filled zero c enough fresh fits = absurd (omega arith)
  send_rounds-Filled (suc fuel) c enough fresh fits =
      elim (Bool-cases (ltb (length c.waiting) c.max_async_num)) [
        | inr full ↦
            (c, rw (full, send_rounds, has_room) refl, still-Filled c (inl (ground (arith, full))))
        | inl room ↦ elim (Bool-cases (may_send c.max_iter_num)) [
          | inr over ↦ (c, rw (room, over, send_rounds, has_room) refl, still-Filled c (inr over))
          | inl left ↦
              let w = ap length (next-waiting c (omega arith) fresh) in
              let n = next-cnt c (omega arith) in
              let lt : length c.waiting < c.max_async_num = ground (arith, room) in
              let (t, e, f) =
                send_rounds-Filled fuel (send_new digest c)
                  (omega (arith, w, same_max c, lt, enough)) (next-IsFresh c (omega arith) fresh)
                  (omega (arith, n)) in
              (t, rw (room, left, send_rounds, has_room) e, next-Filled c t (omega arith) fresh f)
        ]
      ]

  pub send_new_all-Filled :
      (c : Bencher)
      → IsFresh digest c
      → c.cnt + c.max_async_num + 1 < 2 ^ 32
      → (t : Bencher) × (send_new_all digest c ≡ some t) × Filled digest c t
  unfolding send_new_all
  send_new_all-Filled c fresh fits =
      send_rounds-Filled (suc (c.max_async_num - length c.waiting)) c (omega arith) fresh
        (omega arith)
