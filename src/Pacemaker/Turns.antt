-- ===== src/Pacemaker/Turns.antt =====
-- The beats of PMRoundRobinProposer: hotstuff/include/hotstuff/liveness.h.
use archipelago_hotstuff.Base.{
  ℕ, suc, ◌+◌, ◌≡◌, Bool, true, false, not, ◌&&◌, Option, none, some, List, [], ◌∷◌, ◌++◌, ◌==◌,
  if◌then◌else◌,
}
use archipelago_hotstuff.Entity.{Ptr}
use archipelago_hotstuff.Pacemaker.{RoundRobin, init_round, rotate, stop_rotate}

-- The queue of beats beside the rotation. `qc_finish` is the block whose certificate is waited for,
-- with the beat that it resolves; `wait_propose` tells whether the next own proposal is waited for;
-- `resolved` has the beats with the proposers, newest first.
pub record Turn : Type 0 where
  pub round : RoundRobin
  pub pending_beats : List ℕ
  pub qc_finish : Option (Ptr × ℕ)
  pub wait_propose : Bool
  pub resolved : List (ℕ × ℕ)

-- The first beat is taken off the queue. `fin` tells the blocks that have their certificate.
unfoldable pub take_turn : (fin : Ptr → Bool) → ℕ → List ℕ → Turn → Turn
take_turn fin pm q s =
    let t : Turn = record s { round = record s.round { locked = true }; pending_beats = q } in
    if fin s.round.last_proposed
    then record t { qc_finish = none; resolved = (pm, s.round.proposer) ∷ s.resolved }
    else record t { qc_finish = some (s.round.last_proposed, pm) }

unfoldable pub proposer_schedule_next : (fin : Ptr → Bool) → Turn → Turn
unfolding take_turn
proposer_schedule_next fin s = elim (s.pending_beats) [
  | [] ↦ s
  | pm ∷ q ↦ if s.round.locked then s else take_turn fin pm q s
]

-- The callback of `proposer_schedule_next`.
unfoldable pub on_turn_qc : Ptr → Turn → Turn
on_turn_qc blk s = elim (s.qc_finish) [
  | none ↦ s
  | some w ↦
      if w.0 == blk
      then record s { qc_finish = none; resolved = (w.1, s.round.proposer) ∷ s.resolved }
      else s
]

-- The callback of `proposer_update_last_proposed`.
unfoldable pub on_turn_proposal : (fin : Ptr → Bool) → Ptr → Turn → Turn
unfolding proposer_schedule_next
on_turn_proposal fin blk s =
    if s.wait_propose
    then proposer_schedule_next fin
        (record s { round = record s.round { last_proposed = blk; locked = false } })
    else s

-- `beat`
unfoldable pub beat_turn : (fin : Ptr → Bool) → ℕ → Turn → Turn
unfolding proposer_schedule_next
beat_turn fin pm s =
    if not s.round.rotating && s.round.proposer == s.round.id
    then proposer_schedule_next fin (record s { pending_beats = s.pending_beats ++ pm ∷ [] })
    else record s { resolved = (pm, s.round.proposer) ∷ s.resolved }

-- `rotate`, whose rejections drop the beat that waits.
unfoldable pub rotate_turn : Turn → Turn
unfolding rotate
rotate_turn s = record s { round = rotate s.round; qc_finish = none; wait_propose = false }

-- `stop_rotate`
unfoldable pub stop_turn : (pending : List ℕ) → Turn → Turn
unfolding stop_rotate
stop_turn pending s = record s {
  round = stop_rotate pending s.round;
  qc_finish = none;
  wait_propose = true;
}

unfoldable pub init_turn : (id nreplicas : ℕ) (genesis : Ptr) (base_timeout prop_delay : ℕ) → Turn
unfolding init_round
init_turn id nreplicas genesis base_timeout prop_delay = record {
  round = init_round id nreplicas genesis base_timeout prop_delay;
  pending_beats = [];
  qc_finish = none;
  wait_propose = true;
  resolved = [];
}

-- How often `x` is in a list, among resolved beats, and as the beat that waits.
abbrev pub times : ℕ → List ℕ → ℕ
times x [] = 0
times x (y ∷ ys) = (if y == x then 1 else 0) + times x ys

abbrev pub times_resolved : ℕ → List (ℕ × ℕ) → ℕ
times_resolved x [] = 0
times_resolved x (r ∷ rs) = (if r.0 == x then 1 else 0) + times_resolved x rs

abbrev pub waiting : Option (Ptr × ℕ) → List ℕ
waiting none = []
waiting (some w) = w.1 ∷ []

-- What happens to the pace maker of a replica: the beats that were requested, those that a rotation
-- or its end dropped, and the number of rotations and their ends.
pub data Turns (s : Turn) : List ℕ → List ℕ → ℕ → Turn → Type 0 where
  start : Turns s [] [] 0 s
  beats :
      (fin : Ptr → Bool) (pm : ℕ) {bs ds : List ℕ} {k : ℕ} {t : Turn}
      → Turns s bs ds k t
      → Turns s (pm ∷ bs) ds k (beat_turn fin pm t)
  certified :
      (blk : Ptr) {bs ds : List ℕ} {k : ℕ} {t : Turn}
      → Turns s bs ds k t
      → Turns s bs ds k (on_turn_qc blk t)
  proposes :
      (fin : Ptr → Bool) (blk : Ptr) {bs ds : List ℕ} {k : ℕ} {t : Turn}
      → t.qc_finish ≡ none
      → Turns s bs ds k t
      → Turns s bs ds k (on_turn_proposal fin blk t)
  rotates :
      {bs ds : List ℕ} {k : ℕ} {t : Turn}
      → Turns s bs ds k t
      → Turns s bs (waiting t.qc_finish ++ ds) (suc k) (rotate_turn t)
  stops :
      (pending : List ℕ) {bs ds : List ℕ} {k : ℕ} {t : Turn}
      → Turns s bs ds k t
      → Turns s bs (waiting t.qc_finish ++ ds) (suc k) (stop_turn pending t)
