-- ===== src/Pacemaker/Balance.antt =====
-- What becomes of the beats of PMRoundRobinProposer.
use archipelago_hotstuff.Base.{
  ℕ, suc, ◌+◌, ◌≤◌, ◌≡◌, refl, sym, subst, Bool, true, false, not, ◌&&◌, Bool-cases, inl, inr, none,
  some, Option-cases, List, [], ◌∷◌, ◌++◌, ◌==◌, if◌then◌else◌, length, arith,
}
use archipelago_hotstuff.Entity.{Ptr}
use archipelago_hotstuff.Pacemaker.{RoundRobin, init_round, rotate, stop_rotate}
use archipelago_hotstuff.Pacemaker.Turns.{
  Turn, Turns, beat_turn, beats, certified, init_turn, on_turn_proposal, on_turn_qc,
  proposer_schedule_next, proposes, rotate_turn, rotates, start, stop_turn, stops, take_turn, times,
  times_resolved, waiting,
}

-- Each beat that was requested is resolved, waits for a certificate, stands in the queue or was
-- dropped, as often as it was requested; there are at most `k` dropped ones; a replica that rotates
-- waits for no certificate.
pub record Balanced (bs ds : List ℕ) (k : ℕ) (t : Turn) : Type 0 where
  pub all :
      (x : ℕ)
      → times x bs
        ≡ times_resolved x t.resolved
          + times x (waiting t.qc_finish)
          + times x t.pending_beats
          + times x ds
  pub few : length ds ≤ k
  pub held : (w : Ptr × ℕ) → t.qc_finish ≡ some w → t.round.locked ≡ true
  pub paused : t.round.rotating ≡ true → (t.qc_finish ≡ none) × (t.wait_propose ≡ false)

not_rotating : (r e : Bool) → (not r && e) ≡ true → r ≡ false
not_rotating true e h = cc
not_rotating false e h = refl

times-append :
    (x : ℕ) (q : List ℕ) (y : ℕ) → times x (q ++ y ∷ []) ≡ times x q + (if y == x then 1 else 0)
times-append x [] y = omega arith
times-append x (z ∷ q) y = omega (arith, times-append x q y)

module _ {bs ds : List ℕ} {k : ℕ} where
  take_turn-Balanced :
      (fin : Ptr → Bool) (pm : ℕ) (q : List ℕ) (t : Turn)
      → Balanced bs ds k t
      → t.pending_beats ≡ pm ∷ q
      → t.qc_finish ≡ none
      → t.round.rotating ≡ false
      → Balanced bs ds k (take_turn fin pm q t)
  unfolding take_turn
  take_turn-Balanced fin pm q t b e free still =
      let whole : (x : ℕ)
          → ◌≡◌ {A = ℕ} (times x bs)
              (times_resolved x t.resolved + (if pm == x then 1 else 0) + times x q + times x ds) =
        λ x.
          let a = b.all x in
          let none_waits : ◌≡◌ {A = ℕ} (times x (waiting t.qc_finish)) 0 = rw free refl in
          let queue : ◌≡◌ {A = ℕ} (times x t.pending_beats)
              ((if pm == x then 1 else 0) + times x q) =
            rw e refl in
          omega (arith, a, none_waits, queue) in
      elim (Bool-cases (fin t.round.last_proposed)) [
        | inl y ↦ rw y (record {
          all = λ x. omega (arith, whole x);
          few = b.few;
          held = λ w h. refl;
          paused = λ h. cc;
        })
        | inr y ↦ rw y (record {
          all = λ x. omega (arith, whole x);
          few = b.few;
          held = λ w h. refl;
          paused = λ h. cc;
        })
      ]

  schedule-Balanced :
      (fin : Ptr → Bool) (q : List ℕ) (locked : Bool) (t : Turn)
      → t.pending_beats ≡ q
      → t.round.locked ≡ locked
      → Balanced bs ds k t
      → t.round.rotating ≡ false
      → Balanced bs ds k (proposer_schedule_next fin t)
  unfolding proposer_schedule_next
  schedule-Balanced fin [] locked t e l b still = rw (e, proposer_schedule_next) b
  schedule-Balanced fin (pm ∷ q) true t e l b still =
      let stays : proposer_schedule_next fin t ≡ t = simp (e, l, proposer_schedule_next) refl in
      subst (Balanced bs ds k) (sym stays) b
  schedule-Balanced fin (pm ∷ q) false t e l b still = elim (Option-cases t.qc_finish) [
    | inl free ↦ rw (e, l, proposer_schedule_next) (take_turn-Balanced fin pm q t b e free still)
    | inr (w, busy) ↦ let x = b.held w busy in cc
  ]

  on_turn_qc-Balanced :
      (blk : Ptr) (t : Turn) → Balanced bs ds k t → Balanced bs ds k (on_turn_qc blk t)
  unfolding on_turn_qc
  on_turn_qc-Balanced blk t b = elim (Option-cases t.qc_finish) [
    | inl free ↦ rw (free, on_turn_qc) b
    | inr (w, busy) ↦ elim (Bool-cases (w.0 == blk)) [
      | inr n ↦ rw (busy, n, on_turn_qc) b
      | inl y ↦
          rw (busy, y, on_turn_qc)
            (record {
              all = λ x.
                  let one : ◌≡◌ {A = ℕ} (times x (waiting t.qc_finish))
                      ((if w.1 == x then 1 else 0) + 0) =
                    rw busy refl in
                  omega (arith, b.all x, one);
              few = b.few;
              held = λ v h. cc;
              paused = λ h. (refl, (b.paused h).1);
            })
    ]
  ]

  on_turn_proposal-Balanced :
      (fin : Ptr → Bool) (blk : Ptr) (t : Turn)
      → Balanced bs ds k t
      → t.qc_finish ≡ none
      → Balanced bs ds k (on_turn_proposal fin blk t)
  unfolding on_turn_proposal
  on_turn_proposal-Balanced fin blk t b free = elim (Bool-cases t.wait_propose) [
    | inr n ↦
        let stays : on_turn_proposal fin blk t ≡ t = simp (n, on_turn_proposal) refl in
        subst (Balanced bs ds k) (sym stays) b
    | inl y ↦
        let m : Turn = record t {
          round = record t.round { last_proposed = blk; locked = false };
        } in
        let still : t.round.rotating ≡ false = elim (Bool-cases t.round.rotating) [
          | inl r ↦ let (_, off) = b.paused r in cc
          | inr r ↦ r
        ] in
        rw (y, on_turn_proposal)
          (schedule-Balanced fin t.pending_beats false m refl refl
            (record { all = b.all; few = b.few; held = λ w h. cc; paused = b.paused }) still)
  ]

beat_turn-Balanced :
    (fin : Ptr → Bool) (pm : ℕ) {bs ds : List ℕ} {k : ℕ} (t : Turn)
    → Balanced bs ds k t
    → Balanced (pm ∷ bs) ds k (beat_turn fin pm t)
unfolding beat_turn
beat_turn-Balanced fin pm {bs} {ds} {k} t b =
    elim (Bool-cases (not t.round.rotating && t.round.proposer == t.round.id)) [
      | inr n ↦
          rw (n, beat_turn)
            (record {
              all = λ x. omega (arith, b.all x);
              few = b.few;
              held = b.held;
              paused = b.paused;
            })
      | inl y ↦
          let m : Turn = record t { pending_beats = t.pending_beats ++ pm ∷ [] } in
          let still = not_rotating t.round.rotating (t.round.proposer == t.round.id) y in
          rw (y, beat_turn)
            (schedule-Balanced fin m.pending_beats t.round.locked m refl refl
              (record {
                all = λ x. omega (arith, b.all x, times-append x t.pending_beats pm);
                few = b.few;
                held = b.held;
                paused = b.paused;
              })
              still)
    ]

-- The beat that waits is dropped, and the rotation begins or ends.
dropped-all :
    {bs ds : List ℕ} {k : ℕ} (t : Turn)
    → Balanced bs ds k t
    → ((x : ℕ)
        → ◌≡◌ {A = ℕ} (times x bs) (
            times_resolved x t.resolved
            + 0
            + times x t.pending_beats
            + times x (waiting t.qc_finish ++ ds)))
      × (length (waiting t.qc_finish ++ ds) ≤ suc k)
dropped-all {bs} {ds} t b = elim (Option-cases t.qc_finish) [
  | inl e ↦ (
    λ x.
        let a = b.all x in
        let z : ◌≡◌ {A = ℕ} (times x (waiting t.qc_finish)) 0 = rw e refl in
        rw e (omega (arith, a, z)),
    rw e (omega (arith, b.few)),
  )
  | inr (w, e) ↦ (
    λ x.
        let a = b.all x in
        let z : ◌≡◌ {A = ℕ} (times x (waiting t.qc_finish)) ((if w.1 == x then 1 else 0) + 0) =
          rw e refl in
        rw e (omega (arith, a, z)),
    rw e (omega (arith, b.few)),
  )
]

stop_rotate-rotating :
    (pending : List ℕ) (s : RoundRobin) → (stop_rotate pending s).rotating ≡ false
unfolding stop_rotate
stop_rotate-rotating pending s = elim (Bool-cases (s.proposer == s.id)) [
  | inl e ↦ rw e refl
  | inr e ↦ rw e refl
]

init_round-rotating :
    (id nreplicas : ℕ) (genesis : Ptr) (base_timeout prop_delay : ℕ)
    → (init_round id nreplicas genesis base_timeout prop_delay).rotating ≡ false
unfolding init_round stop_rotate
init_round-rotating id nreplicas genesis base_timeout prop_delay = elim (Bool-cases (0 == id)) [
  | inl e ↦ rw e refl
  | inr e ↦ rw e refl
]

stop_turn-Balanced :
    (pending : List ℕ) {bs ds : List ℕ} {k : ℕ} (t : Turn)
    → Balanced bs ds k t
    → Balanced bs (waiting t.qc_finish ++ ds) (suc k) (stop_turn pending t)
unfolding stop_turn
stop_turn-Balanced pending t b =
    let d = dropped-all t b in
    record {
      all = d.0;
      few = d.1;
      held = λ w e. cc;
      paused = λ e. let off = stop_rotate-rotating pending t.round in cc;
    }

-- Whatever happens to a PMRoundRobinProposer behind its start, beats, certificates, own proposals
-- while no beat waits for a certificate, rotations and their ends: each beat was resolved, waits for
-- a certificate, stands in the queue or was dropped, as often as it was requested; a rotation or its
-- end drops at most one; and a replica that rotates waits for no certificate and for no own proposal.
pub Turns-Balanced :
    (id nreplicas : ℕ) (genesis : Ptr) (base_timeout prop_delay : ℕ) {bs ds : List ℕ} {k : ℕ}
    {t : Turn}
    → Turns (init_turn id nreplicas genesis base_timeout prop_delay) bs ds k t
    → Balanced bs ds k t
unfolding init_turn rotate_turn rotate
Turns-Balanced id nreplicas genesis base_timeout prop_delay start = record {
  all = λ x. refl;
  few = omega arith;
  held = λ w e. cc;
  paused = λ e. let off = init_round-rotating id nreplicas genesis base_timeout prop_delay in cc;
}
Turns-Balanced id nreplicas genesis base_timeout prop_delay (beats fin pm {t} ts) =
    beat_turn-Balanced fin pm t (Turns-Balanced id nreplicas genesis base_timeout prop_delay ts)
Turns-Balanced id nreplicas genesis base_timeout prop_delay (certified blk {t} ts) =
    on_turn_qc-Balanced blk t (Turns-Balanced id nreplicas genesis base_timeout prop_delay ts)
Turns-Balanced id nreplicas genesis base_timeout prop_delay (proposes fin blk {t} free ts) =
    on_turn_proposal-Balanced fin blk t
      (Turns-Balanced id nreplicas genesis base_timeout prop_delay ts) free
Turns-Balanced id nreplicas genesis base_timeout prop_delay (rotates {t} ts) =
    let d = dropped-all t (Turns-Balanced id nreplicas genesis base_timeout prop_delay ts) in
    record { all = d.0; few = d.1; held = λ w e. cc; paused = λ e. (refl, refl) }
Turns-Balanced id nreplicas genesis base_timeout prop_delay (stops pending {t} ts) =
    stop_turn-Balanced pending t (Turns-Balanced id nreplicas genesis base_timeout prop_delay ts)
