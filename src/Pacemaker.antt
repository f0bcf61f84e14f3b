-- ===== src/Pacemaker.antt =====
-- The pace makers: hotstuff/include/hotstuff/liveness.h. A promise of a beat is a number; what a
-- caller does once its beat is resolved is a later step. A timeout is a number.
pub mod Beats
pub mod Rotation
pub mod Turns
pub mod Balance
pub mod Tail
use archipelago_hotstuff.Base.{
  ℕ, ◌+◌, ◌*◌, ◌%◌, ◌^◌, Bool, true, false, not, ◌&&◌, Option, none, some, List, [], ◌∷◌, ◌++◌,
  ◌==◌, if◌then◌else◌, lookup, assign,
}
use archipelago_hotstuff.Entity.{Ptr}

-- PMWaitQC. `qc_finish` is the block whose certificate the pace maker waits for, with the beat that
-- it resolves then; `resolved` has the beats with the proposers, newest first.
pub record WaitQc : Type 0 where
  pub proposer : ℕ
  pub pending_beats : List ℕ
  pub last_proposed : Ptr
  pub locked : Bool
  pub qc_finish : Option (Ptr × ℕ)
  pub resolved : List (ℕ × ℕ)

-- `PMWaitQC::init`; `proposer` is what `get_proposer` returns, fixed for PaceMakerDummyFixed.
unfoldable pub init_wait : (proposer : ℕ) (genesis : Ptr) → WaitQc
init_wait proposer genesis = record {
  proposer = proposer;
  pending_beats = [];
  last_proposed = genesis;
  locked = false;
  qc_finish = none;
  resolved = [];
}

-- The first beat is taken off the queue, to be resolved with the certificate of the last block. `fin`
-- tells the blocks that have theirs, for which `async_qc_finish` is resolved at once.
unfoldable pub take_beat : (fin : Ptr → Bool) → ℕ → List ℕ → WaitQc → WaitQc
take_beat fin pm q s =
    if fin s.last_proposed
    then record s {
      pending_beats = q;
      locked = true;
      qc_finish = none;
      resolved = (pm, s.proposer) ∷ s.resolved;
    }
    else record s { pending_beats = q; locked = true; qc_finish = some (s.last_proposed, pm) }

-- `schedule_next`
unfoldable pub schedule_next : (fin : Ptr → Bool) → WaitQc → WaitQc
unfolding take_beat
schedule_next fin s = elim (s.pending_beats) [
  | [] ↦ s
  | pm ∷ q ↦ if s.locked then s else take_beat fin pm q s
]

-- The core has the certificate of a block.
unfoldable pub on_qc : Ptr → WaitQc → WaitQc
on_qc blk s = elim (s.qc_finish) [
  | none ↦ s
  | some w ↦
      if w.0 == blk
      then record s { qc_finish = none; resolved = (w.1, s.proposer) ∷ s.resolved }
      else s
]

-- The callback of `update_last_proposed`.
unfoldable pub on_own_proposal : (fin : Ptr → Bool) → Ptr → WaitQc → WaitQc
unfolding schedule_next
on_own_proposal fin blk s = schedule_next fin (record s { last_proposed = blk; locked = false })

unfoldable pub request_beat : (fin : Ptr → Bool) → ℕ → WaitQc → WaitQc
unfolding schedule_next
request_beat fin pm s = schedule_next fin (record s { pending_beats = s.pending_beats ++ pm ∷ [] })

-- The timer of PMRoundRobinProposer: none, `on_exp_timeout` or `rotate` when it is up.
pub data Timer : Type 0 where
  stopped : Timer
  exp_timer : (delay : ℕ) → Timer
  delay_timer : (delay : ℕ) → Timer

-- PMRoundRobinProposer, with the core's `id` and `nreplicas`. `consensus` has the commands of the
-- calls of `do_new_consensus(0, cmds)`, `elected` counts those of `do_elected`, newest first.
pub record RoundRobin : Type 0 where
  pub id : ℕ
  pub nreplicas : ℕ
  pub genesis : Ptr
  pub base_timeout : ℕ
  pub exp_timeout : ℕ
  pub prop_delay : ℕ
  pub timer : Timer
  pub proposer : ℕ
  pub prop_blk : List (ℕ × Ptr)
  pub rotating : Bool
  pub locked : Bool
  pub last_proposed : Ptr
  pub consensus : List (List ℕ)
  pub elected : ℕ

-- `rotate`: `(proposer + 1) % nreplicas`, in 16 bits.
unfoldable pub rotate : RoundRobin → RoundRobin
rotate s = record s {
  prop_blk = [];
  rotating = true;
  proposer = ((s.proposer + 1) % s.nreplicas) % 2 ^ 16;
  timer = exp_timer s.exp_timeout;
  exp_timeout = 2 * s.exp_timeout;
}

-- `stop_rotate`; `pending` are the commands that wait for a decision, which an elected proposer
-- proposes again if there are any.
unfoldable pub stop_rotate : (pending : List ℕ) → RoundRobin → RoundRobin
stop_rotate pending s =
    let t : RoundRobin = record s {
      timer = stopped;
      rotating = false;
      locked = false;
      last_proposed = s.genesis;
    } in
    if s.proposer == s.id
    then record t {
      elected = s.elected + 1;
      consensus = elim pending [ [] ↦ s.consensus | c ∷ cs ↦ (c ∷ cs) ∷ s.consensus ];
    }
    else t

-- `on_consensus`: `prop_blk[proposer] == blk`
unfoldable pub on_consensus : (pending : List ℕ) → Ptr → RoundRobin → RoundRobin
unfolding stop_rotate
on_consensus pending blk s =
    let t : RoundRobin = record s { timer = stopped; exp_timeout = s.base_timeout } in
    elim (lookup s.proposer s.prop_blk) [
      | none ↦ t
      | some p ↦ if p == blk then stop_rotate pending t else t
    ]

unfoldable pub impeach : RoundRobin → RoundRobin
unfolding rotate
impeach s = if s.rotating then s else rotate s

-- `on_exp_timeout`
unfoldable pub on_exp_timeout : RoundRobin → RoundRobin
on_exp_timeout s =
    let t : RoundRobin = record s { timer = delay_timer s.prop_delay } in
    if s.proposer == s.id then record t { consensus = [] ∷ s.consensus } else t

-- The timer is up.
unfoldable pub on_timer : RoundRobin → RoundRobin
unfolding on_exp_timeout rotate
on_timer s = elim (s.timer) [
  | stopped ↦ s
  | exp_timer _ ↦ on_exp_timeout s
  | delay_timer _ ↦ rotate s
]

-- The callbacks of `reg_proposal` and `reg_receive_proposal`: the first proposal of each proposer.
unfoldable pub note_proposal : (proposer : ℕ) → Ptr → RoundRobin → RoundRobin
note_proposal proposer blk s = elim (lookup proposer s.prop_blk) [
  | none ↦ record s { prop_blk = (proposer, blk) ∷ s.prop_blk }
  | some _ ↦ s
]

-- `init`
unfoldable pub init_round :
    (id nreplicas : ℕ) (genesis : Ptr) (base_timeout prop_delay : ℕ) → RoundRobin
unfolding stop_rotate
init_round id nreplicas genesis base_timeout prop_delay = stop_rotate [] (record {
  id = id;
  nreplicas = nreplicas;
  genesis = genesis;
  base_timeout = base_timeout;
  exp_timeout = base_timeout;
  prop_delay = prop_delay;
  timer = stopped;
  proposer = 0;
  prop_blk = [];
  rotating = false;
  locked = false;
  last_proposed = genesis;
  consensus = [];
  elected = 0;
})
