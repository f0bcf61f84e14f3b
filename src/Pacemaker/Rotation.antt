-- ===== src/Pacemaker/Rotation.antt =====
-- PMRoundRobinProposer: whose turn it is, and how long it takes.
use archipelago_hotstuff.Base.{
  ℕ, zero, suc, ◌+◌, ◌-◌, ◌*◌, ◌%◌, ◌^◌, ◌≤◌, ◌<◌, ◌≡◌, refl, sym, ap, subst, ltb, ◌∙◌, true, false,
  Bool-cases, inl, inr, ◌==◌, ==_refl, none, some, List, [], ◌∷◌, arith, lookup, lookup-here,
}
use native.Mathlib.Nat.{mod-add-mod, mod-lt, mod-eq_of_lt, add-mod_right}
use archipelago_hotstuff.Entity.{Ptr}
use archipelago_hotstuff.Pacemaker.{
  RoundRobin, stopped, exp_timer, rotate, stop_rotate, on_consensus, impeach, on_exp_timeout,
  on_timer, note_proposal,
}

-- The timer is up twice: first `on_exp_timeout`, then `rotate`.
abbrev pub time_out : RoundRobin → RoundRobin
time_out s = on_timer (on_timer s)

abbrev pub time_outs : ℕ → RoundRobin → RoundRobin
time_outs zero s = s
time_outs (suc k) s = time_out (time_outs k s)

abbrev pub doubled : ℕ → ℕ → ℕ
doubled zero d = d
doubled (suc k) d = 2 * doubled k d

-- A rotation among `n` replicas that began at the turn `p` with the timeout `d`, `k` turns later.
pub record Rotating (n p base d k : ℕ) (s : RoundRobin) : Type 0 where
  pub turn : s.proposer ≡ (p + k) % n
  pub patience : s.exp_timeout ≡ doubled (suc k) d
  pub timer : s.timer ≡ exp_timer (doubled k d)
  pub rotates : s.rotating ≡ true
  pub size : s.nreplicas ≡ n
  pub clear : s.prop_blk ≡ []
  pub base_same : s.base_timeout ≡ base

-- The turn that follows one, in 16 bits.
next_turn : (n p k : ℕ) → 0 < n → n ≤ 2 ^ 16 → (((p + k) % n + 1) % n) % 2 ^ 16 ≡ (p + suc k) % n
next_turn n p k pos fits =
    let e : p + k + 1 ≡ p + suc k = omega arith in
    mod-eq_of_lt (omega (arith, mod-lt ((p + k) % n + 1) pos))
    ∙ mod-add-mod (p + k) n 1
    ∙ ap (λ x. x % n) e

time_out-step :
    (s : RoundRobin) (d : ℕ)
    → s.timer ≡ exp_timer d
    → ((time_out s).proposer ≡ ((s.proposer + 1) % s.nreplicas) % 2 ^ 16)
      × ((time_out s).exp_timeout ≡ 2 * s.exp_timeout)
      × ((time_out s).timer ≡ exp_timer s.exp_timeout)
      × ((time_out s).rotating ≡ true)
      × ((time_out s).nreplicas ≡ s.nreplicas)
      × ((time_out s).prop_blk ≡ [])
      × ((time_out s).base_timeout ≡ s.base_timeout)
unfolding on_timer on_exp_timeout rotate
time_out-step s d e = elim (Bool-cases (s.proposer == s.id)) [
  | inl y ↦ simp (e, y, on_timer, on_exp_timeout) (refl, refl, refl, refl, refl, refl, refl)
  | inr n ↦ simp (e, n, on_timer, on_exp_timeout) (refl, refl, refl, refl, refl, refl, refl)
]

time_out-Rotating :
    (n p base d k : ℕ) (s : RoundRobin)
    → 0 < n
    → n ≤ 2 ^ 16
    → Rotating n p base d k s
    → Rotating n p base d (suc k) (time_out s)
time_out-Rotating n p base d k s pos fits r =
    let (turn, patience, timer, rotates, size, clear, base_same) =
      time_out-step s (doubled k d) r.timer in
    record {
      turn =
          turn
          ∙ ap (λ m. ((s.proposer + 1) % m) % 2 ^ 16) r.size
          ∙ ap (λ q. ((q + 1) % n) % 2 ^ 16) r.turn
          ∙ next_turn n p k pos fits;
      patience = patience ∙ ap (λ x. 2 * x) r.patience;
      timer = timer ∙ ap exp_timer r.patience;
      rotates = rotates;
      size = size ∙ r.size;
      clear = clear;
      base_same = base_same ∙ r.base_same;
    }

impeach-Rotating :
    (n : ℕ) (s : RoundRobin)
    → 0 < n
    → n ≤ 2 ^ 16
    → s.nreplicas ≡ n
    → s.rotating ≡ false
    → Rotating n (s.proposer + 1) s.base_timeout s.exp_timeout 0 (impeach s)
unfolding impeach rotate
impeach-Rotating n s pos fits size still =
    let turns : impeach s ≡ rotate s = simp (still, impeach) refl in
    let e : s.proposer + 1 ≡ s.proposer + 1 + 0 = omega arith in
    subst (Rotating n (s.proposer + 1) s.base_timeout s.exp_timeout 0) (sym turns) (record {
      turn =
          ap (λ m. ((s.proposer + 1) % m) % 2 ^ 16) size
          ∙ mod-eq_of_lt (omega (arith, mod-lt (s.proposer + 1) pos))
          ∙ ap (λ x. x % n) e;
      patience = refl;
      timer = refl;
      rotates = refl;
      size = size;
      clear = refl;
      base_same = refl;
    })

time_outs-Rotating :
    (n : ℕ) (s : RoundRobin) (k : ℕ)
    → 0 < n
    → n ≤ 2 ^ 16
    → s.nreplicas ≡ n
    → s.rotating ≡ false
    → Rotating n (s.proposer + 1) s.base_timeout s.exp_timeout k (time_outs k (impeach s))
time_outs-Rotating n s zero pos fits size still = impeach-Rotating n s pos fits size still
time_outs-Rotating n s (suc k) pos fits size still =
    time_out-Rotating n (s.proposer + 1) s.base_timeout s.exp_timeout k (time_outs k (impeach s))
      pos fits (time_outs-Rotating n s k pos fits size still)

-- Each of the turns comes within a round.
turn_of : (n p r : ℕ) → 0 < n → r < n → (k : ℕ) × (k < n) × ((p + k) % n ≡ r)
turn_of n p r pos small =
    let q = p % n in
    let lt : p % n < n = mod-lt p pos in
    elim (Bool-cases (ltb r (p % n))) [
      | inr ge ↦
          let le : p % n ≤ r = ground (arith, ge) in
          let e : p % n + (r - p % n) ≡ r = omega (arith, le) in
          (
            r - p % n,
            omega (arith, small),
            sym (mod-add-mod p n (r - p % n)) ∙ ap (λ x. x % n) e ∙ mod-eq_of_lt small,
          )
      | inl less ↦
          let lo : r < p % n = ground (arith, less) in
          let e : p % n + (r + n - p % n) ≡ r + n = omega (arith, lt) in
          (
            r + n - p % n,
            omega (arith, lo, lt),
            sym (mod-add-mod p n (r + n - p % n))
                ∙ ap (λ x. x % n) e
                ∙ add-mod_right r n
                ∙ mod-eq_of_lt small,
          )
    ]

-- The rotation is over, at the turn of `r`.
pub record Settled (r base : ℕ) (u : RoundRobin) : Type 0 where
  pub rotates : u.rotating ≡ false
  pub unlocked : u.locked ≡ false
  pub timer : u.timer ≡ stopped
  pub turn : u.proposer ≡ r
  pub patience : u.exp_timeout ≡ base

stop-Settled :
    (pending : List ℕ) (t : RoundRobin) → Settled t.proposer t.exp_timeout (stop_rotate pending t)
unfolding stop_rotate
stop-Settled pending t = elim (Bool-cases (t.proposer == t.id)) [
  | inl y ↦
      simp (y, stop_rotate)
        (record { rotates = refl; unlocked = refl; timer = refl; turn = refl; patience = refl })
  | inr n ↦
      simp (n, stop_rotate)
        (record { rotates = refl; unlocked = refl; timer = refl; turn = refl; patience = refl })
]

found-Settled :
    (pending : List ℕ) (blk : Ptr) (t : RoundRobin)
    → lookup t.proposer t.prop_blk ≡ some blk
    → Settled t.proposer t.base_timeout (on_consensus pending blk t)
unfolding on_consensus
found-Settled pending blk t found =
    let u : RoundRobin = record t { timer = stopped; exp_timeout = t.base_timeout } in
    let e : on_consensus pending blk t ≡ stop_rotate pending u =
      simp (found, ==_refl blk, on_consensus) refl in
    subst (Settled t.proposer t.base_timeout) (sym e) (stop-Settled pending u)

noted-Settled :
    (pending : List ℕ) (blk : Ptr) (s : RoundRobin)
    → s.prop_blk ≡ []
    → Settled s.proposer s.base_timeout (on_consensus pending blk (note_proposal s.proposer blk s))
unfolding note_proposal lookup
noted-Settled pending blk s clear =
    let absent : lookup s.proposer s.prop_blk ≡ none = ap (lookup s.proposer) clear in
    let u : RoundRobin = record s { prop_blk = (s.proposer, blk) ∷ s.prop_blk } in
    let e : note_proposal s.proposer blk s ≡ u = simp (absent, note_proposal) refl in
    subst (λ v. Settled s.proposer s.base_timeout (on_consensus pending blk v)) (sym e)
      (found-Settled pending blk u (lookup-here s.proposer blk s.prop_blk))

-- An impeachment gives each of up to 2^16 replicas its turn: for each replica there is a number of
-- timeouts, below the number of replicas, behind which it is the proposer, and if its first proposal
-- reaches consensus then, the rotation ends at its turn, with the lock off, the timer stopped and
-- the base timeout. Until then the timeout doubles with each turn.
pub impeach-Settled :
    (s : RoundRobin) (r : ℕ) (pending : List ℕ) (blk : Ptr)
    → s.nreplicas ≤ 2 ^ 16
    → r < s.nreplicas
    → s.rotating ≡ false
    → (k : ℕ) × (k < s.nreplicas)
      × ((time_outs k (impeach s)).proposer ≡ r)
      × ((time_outs k (impeach s)).exp_timeout ≡ doubled (suc k) s.exp_timeout)
      × Settled r s.base_timeout
          (on_consensus pending blk (note_proposal r blk (time_outs k (impeach s))))
impeach-Settled s r pending blk fits small still =
    let n = s.nreplicas in
    let (k, few, lands) = turn_of n (s.proposer + 1) r (omega (arith, small)) small in
    let t = time_outs k (impeach s) in
    let q = time_outs-Rotating n s k (omega (arith, small)) fits refl still in
    let turn = q.turn ∙ lands in
    (
      k,
      few,
      turn,
      q.patience,
      subst (λ b. Settled r b (on_consensus pending blk (note_proposal r blk t))) q.base_same
          (subst (λ x. Settled x t.base_timeout (on_consensus pending blk (note_proposal x blk t)))
            turn (noted-Settled pending blk t q.clear)),
    )
