-- ===== src/Tests/Pacers.antt =====
-- The theorems on the pace makers at concrete inputs.
use archipelago_hotstuff.Base.{ℕ, suc, ◌≤◌, ◌<◌, ◌≡◌, refl, Bool, false, [], ◌∷◌, arith, All}
use archipelago_hotstuff.Entity.{Ptr}
use archipelago_hotstuff.Core.State.{ok, height}
use archipelago_hotstuff.Core.Invariant.{IsLive}
use archipelago_hotstuff.Core.Update.Chain.{Extends}
use archipelago_hotstuff.Pacemaker.{
  WaitQc, init_wait, request_beat, on_qc, RoundRobin, stopped, impeach, on_consensus, note_proposal,
}
use archipelago_hotstuff.Pacemaker.Beats.{start}
use archipelago_hotstuff.Pacemaker.Rotation.{time_outs, doubled, Settled, impeach-Settled}
use archipelago_hotstuff.Pacemaker.Tail.{on_hqc_update, on_hqc_update-Highest}
use archipelago_hotstuff.Tests.Chain.{chain, chain-live, chain-Sound}
use archipelago_hotstuff.Pacemaker.{init_round, stop_rotate}
use archipelago_hotstuff.Pacemaker.Turns.{
  Turn, take_turn, proposer_schedule_next, beat_turn, rotate_turn, init_turn, start, beats, rotates,
}
use archipelago_hotstuff.Pacemaker.Balance.{Balanced, Turns-Balanced}

-- No block has its certificate yet.
abbrev none_finished : Ptr → Bool
none_finished p = false

-- Two beats are requested, and then the genesis block has its certificate.
abbrev beaten : WaitQc
beaten = on_qc 0 (request_beat none_finished 8 (request_beat none_finished 7 (init_wait 1 0)))

abbrev settled : RoundRobin
settled = record {
  id = 2;
  nreplicas = 4;
  genesis = 0;
  base_timeout = 1;
  exp_timeout = 1;
  prop_delay = 1;
  timer = stopped;
  proposer = 3;
  prop_blk = [];
  rotating = false;
  locked = false;
  last_proposed = 0;
  consensus = [];
  elected = 0;
}

impeach-Settled_example :
    (k : ℕ) × (k < 4)
    × ((time_outs k (impeach settled)).proposer ≡ 2)
    × ((time_outs k (impeach settled)).exp_timeout ≡ doubled (suc k) 1)
    × Settled 2 1 (on_consensus (50 ∷ []) 9 (note_proposal 2 9 (time_outs k (impeach settled))))
impeach-Settled_example = impeach-Settled settled 2 (50 ∷ []) 9 (omega arith) (omega arith) refl

on_hqc_update-Highest_example :
    (r : Ptr) × (on_hqc_update chain ≡ ok r chain)
    × IsLive chain r
    × Extends chain chain.hqc.0 r
    × All (λ b. Extends chain chain.hqc.0 b → height chain b ≤ height chain r) chain.tails
on_hqc_update-Highest_example = on_hqc_update-Highest chain-Sound (chain-live 4 (omega arith), tt)

-- A replica that is the proposer and waits for a certificate, and then rotates.
abbrev rotated : Turn
rotated = rotate_turn (beat_turn (λ _. false) 5 (init_turn 0 4 0 1 1))

Turns-Balanced_example : Balanced (5 ∷ []) (5 ∷ []) 1 rotated
unfolding beat_turn proposer_schedule_next take_turn init_turn init_round stop_rotate
Turns-Balanced_example = Turns-Balanced 0 4 0 1 1 (rotates (beats (λ _. false) 5 start))
