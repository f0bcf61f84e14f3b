-- ===== src/Core/Handlers/Promise.antt =====
-- The promises that a complete certificate resolves.
use archipelago_hotstuff.Base.{
  ℕ, ◌≡◌, refl, Option, none, some, ◌∷◌, arith, Bool-cases, ◌⊎◌, inl, inr, member,
}
use archipelago_hotstuff.Entity.{Ptr}
use archipelago_hotstuff.Core.State.{HotStuffCore, qc_finished}
use archipelago_hotstuff.Core.Invariant.{Falling}
use archipelago_hotstuff.Core.Frame.{Frame-same}
use archipelago_hotstuff.Core.Advance.{SameCore, SameCore-refl}
use archipelago_hotstuff.Core.Handlers.Votes.{on_qc_finish}
use archipelago_hotstuff.Core.Handlers.Voting.{finish_qc_ref}

-- The promise of a certified block: at most one more output, which is no vote.
pub record Finishes (s t : HotStuffCore) : Type 0 where
  pub core : SameCore s t
  pub falling : (u : HotStuffCore) (n : ℕ) → Falling u n s.outputs → Falling u n t.outputs
  pub vheight : t.vheight ≡ s.vheight
  pub vote_disabled : t.vote_disabled ≡ s.vote_disabled
  pub id : t.id ≡ s.id
  pub priv_key : t.priv_key ≡ s.priv_key
  pub blocks : t.blocks ≡ s.blocks
  pub config : t.config ≡ s.config
  pub noted : (t.outputs ≡ s.outputs) ⊎ ((q : Ptr) × (t.outputs ≡ qc_finished q ∷ s.outputs))

Finishes-refl : (s : HotStuffCore) → Finishes s s
Finishes-refl s = record {
  core = SameCore-refl s;
  falling = λ u n f. f;
  vheight = refl;
  vote_disabled = refl;
  id = refl;
  priv_key = refl;
  blocks = refl;
  noted = inl refl;
  config = refl;
}

pub on_qc_finish-Finishes : (p : Ptr) (s : HotStuffCore) → Finishes s (on_qc_finish p s)
unfolding on_qc_finish
on_qc_finish-Finishes p s = elim (Bool-cases (member p s.qc_waiting)) [
  | inr idle ↦ rw idle (Finishes-refl s)
  | inl waiting ↦ rw waiting (record {
    core = record {
      frame = Frame-same s _ refl refl refl refl;
      b_lock = refl;
      b_exec = refl;
      hqc = refl;
      vheight = omega arith;
      logged = refl;
    };
    falling = λ u n f. f;
    vheight = refl;
    vote_disabled = refl;
    id = refl;
    priv_key = refl;
    blocks = refl;
    noted = inr (p, refl);
    config = refl;
  })
]

pub finish_qc_ref-Finishes : (r : Option Ptr) (s : HotStuffCore) → Finishes s (finish_qc_ref r s)
unfolding finish_qc_ref
finish_qc_ref-Finishes none s = Finishes-refl s
finish_qc_ref-Finishes (some q) s = on_qc_finish-Finishes q s
