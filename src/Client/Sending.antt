-- ===== src/Client/Sending.antt =====
-- `try_send` and the loop over it.
use archipelago_hotstuff.Base.{
  ℕ, zero, suc, ◌+◌, ◌-◌, ◌^◌, ◌≤◌, ◌<◌, ◌≡◌, refl, ap, ◌∙◌, true, false, Option, none, some, ◌∷◌,
  arith, ltb, Bool-cases, inl, inr, ◌⊎◌, length, lookup, insert_new-none, lookup-other, ◌≢◌,
}
use archipelago_hotstuff.Client.{
  Client, new_request, is_left, send_next, try_send, send_loop, send_while,
}

-- The hashes of the commands to come are not waiting.
abbrev pub IsFresh : (ℕ → ℕ → ℕ) → Client → Type 0
IsFresh digest c = (i : ℕ) → c.cnt + i < 2 ^ 32 → lookup (digest c.cid (c.cnt + i)) c.waiting ≡ none

-- Different commands have different hashes.
abbrev pub IsInjective : (ℕ → ℕ → ℕ) → Type 0
IsInjective digest = (cid a b : ℕ) → digest cid a ≡ digest cid b → a ≡ b

-- How the loop ends: the requests are as many as may wait, or no more may be sent, and each new
-- request has been counted once.
pub record Filled (c t : Client) : Type 0 where
  pub stops : (t.max_async_num ≤ length t.waiting) ⊎ (is_left t.max_iter_num ≡ false)
  pub counted : t.cnt + length c.waiting ≡ c.cnt + length t.waiting
  pub bound : length t.waiting ≤ c.max_async_num + (length c.waiting - c.max_async_num)
  pub same : (t.max_async_num ≡ c.max_async_num) × (t.waiting_exec ≡ c.waiting_exec)

module _ (digest : ℕ → ℕ → ℕ) (inj : IsInjective digest) where
  fresh_now :
      (c : Client)
      → c.cnt + 1 < 2 ^ 32
      → IsFresh digest c
      → lookup (digest c.cid c.cnt) c.waiting ≡ none
  fresh_now c fits fresh =
      let e : c.cnt ≡ c.cnt + 0 = omega arith in
      ap (λ n. lookup (digest c.cid n) c.waiting) e ∙ fresh 0 (omega arith)

  next-waiting :
      (c : Client)
      → c.cnt + 1 < 2 ^ 32
      → IsFresh digest c
      → (send_next digest c).waiting ≡ (digest c.cid c.cnt, new_request) ∷ c.waiting
  unfolding send_next
  next-waiting c fits fresh = insert_new-none _ _ _ (fresh_now c fits fresh)

  next-cnt : (c : Client) → c.cnt + 1 < 2 ^ 32 → (send_next digest c).cnt ≡ c.cnt + 1
  unfolding send_next
  next-cnt c fits = omega arith

  next-cid : (c : Client) → (send_next digest c).cid ≡ c.cid
  unfolding send_next
  next-cid c = refl

  next-same :
      (c : Client)
      → ((send_next digest c).max_async_num ≡ c.max_async_num)
        × ((send_next digest c).waiting_exec ≡ c.waiting_exec)
  unfolding send_next
  next-same c = (refl, refl)

  next-IsFresh :
      (c : Client) → c.cnt + 1 < 2 ^ 32 → IsFresh digest c → IsFresh digest (send_next digest c)
  next-IsFresh c fits fresh i lt =
      let e : (send_next digest c).cnt + i ≡ c.cnt + suc i = omega (arith, next-cnt c fits) in
      let ne : digest c.cid c.cnt ≢ digest c.cid (c.cnt + suc i) =
        λ x. let y = inj c.cid c.cnt (c.cnt + suc i) x in omega (arith, y) in
      rw (e, next-cid c, next-waiting c fits fresh)
        (lookup-other _ _ new_request c.waiting ne ∙ fresh (suc i) (omega (arith, e, lt)))

  full-try_send :
      (c : Client) → ltb (length c.waiting) c.max_async_num ≡ false → try_send digest c ≡ (false, c)
  unfolding try_send
  full-try_send c full = rw (full, try_send) refl

  over-try_send : (c : Client) → is_left c.max_iter_num ≡ false → try_send digest c ≡ (false, c)
  unfolding try_send
  over-try_send c over = elim (Bool-cases (ltb (length c.waiting) c.max_async_num)) [
    | inl x ↦ rw (x, over, try_send) refl
    | inr x ↦ rw (x, try_send) refl
  ]

  room-try_send :
      (c : Client)
      → ltb (length c.waiting) c.max_async_num ≡ true
      → is_left c.max_iter_num ≡ true
      → try_send digest c ≡ (true, send_next digest c)
  unfolding try_send
  room-try_send c room left = rw (room, left, try_send) refl

  stop-send_loop :
      (fuel : ℕ) (c t : Client)
      → try_send digest c ≡ (false, t)
      → send_loop digest (suc fuel) c ≡ some t
  unfolding send_loop
  stop-send_loop fuel c t e =
      ap
        (λ r. elim r.0 as (λ b. Option Client) [
          | true ↦ send_loop digest fuel r.1
          | false ↦ some r.1
        ])
        e

  go-send_loop :
      (fuel : ℕ) (c t : Client)
      → try_send digest c ≡ (true, t)
      → send_loop digest (suc fuel) c ≡ send_loop digest fuel t
  unfolding send_loop
  go-send_loop fuel c t e =
      ap
        (λ r. elim r.0 as (λ b. Option Client) [
          | true ↦ send_loop digest fuel r.1
          | false ↦ some r.1
        ])
        e

  still-Filled :
      (c : Client)
      → (c.max_async_num ≤ length c.waiting) ⊎ (is_left c.max_iter_num ≡ false)
      → Filled c c
  still-Filled c stops = record {
    stops = stops;
    counted = refl;
    bound = omega arith;
    same = (refl, refl);
  }

  next-Filled :
      (c t : Client)
      → c.cnt + 1 < 2 ^ 32
      → IsFresh digest c
      → length c.waiting < c.max_async_num
      → Filled (send_next digest c) t
      → Filled c t
  next-Filled c t fits fresh lt f =
      let w = ap length (next-waiting c fits fresh) in
      let n = next-cnt c fits in
      let (same, exec) = next-same c in
      record {
        stops = f.stops;
        counted = omega (arith, f.counted, w, n);
        bound = omega (arith, f.bound, w, same, lt);
        same = (f.same.0 ∙ same, f.same.1 ∙ exec);
      }

  -- The loop ends within the rounds that it is given.
  send_loop-Filled :
      (fuel : ℕ) (c : Client)
      → c.max_async_num - length c.waiting < fuel
      → IsFresh digest c
      → c.cnt + fuel < 2 ^ 32
      → (t : Client) × (send_loop digest fuel c ≡ some t) × Filled c t
  send_loop-Filled zero c enough fresh fits = absurd (omega arith)
  send_loop-Filled (suc fuel) c enough fresh fits =
      elim (Bool-cases (ltb (length c.waiting) c.max_async_num)) [
        | inr full ↦ (
          c,
          stop-send_loop fuel c c (full-try_send c full),
          still-Filled c (inl (ground (arith, full))),
        )
        | inl room ↦ elim (Bool-cases (is_left c.max_iter_num)) [
          | inr over ↦
              (c, stop-send_loop fuel c c (over-try_send c over), still-Filled c (inr over))
          | inl left ↦
              let w = ap length (next-waiting c (omega arith) fresh) in
              let n = next-cnt c (omega arith) in
              let lt : length c.waiting < c.max_async_num = ground (arith, room) in
              let (same, exec) = next-same c in
              let (t, e, f) =
                send_loop-Filled fuel (send_next digest c) (omega (arith, w, same, lt, enough))
                  (next-IsFresh c (omega arith) fresh) (omega (arith, n)) in
              (
                t,
                go-send_loop fuel c (send_next digest c) (room-try_send c room left) ∙ e,
                next-Filled c t (omega arith) fresh lt f,
              )
        ]
      ]

  -- `while (try_send());` ends: with different commands hashed differently, none of the commands to
  -- come waiting, and the counter short of its end, it fills the places for requests or uses up the
  -- requests to send, and counts each new request once.
  pub send_while-Filled :
      (c : Client)
      → IsFresh digest c
      → c.cnt + c.max_async_num + 1 < 2 ^ 32
      → (t : Client) × (send_while digest c ≡ some t) × Filled c t
  unfolding send_while
  send_while-Filled c fresh fits =
      send_loop-Filled (suc (c.max_async_num - length c.waiting)) c (omega arith) fresh
        (omega arith)
