-- ===== src/Core/Update/Commit.antt =====
-- The commit of a chain: what it outputs and what it leaves alone.
use mathlib.Core.List.{reverse_aux}
use archipelago_hotstuff.Base.{ℕ, ◌+◌, ◌≡◌, refl, ap, ◌∙◌, subst, List, [], ◌∷◌}
use archipelago_hotstuff.Entity.{Ptr}
use archipelago_hotstuff.Core.State.{HotStuffCore, Event, set_blk, committed}
use archipelago_hotstuff.Core.Invariant.{Climbs, Executed, Falling, SameBlock, Still, log}
use archipelago_hotstuff.Core.Frame.{Frame-same, Frame-set_blk, Frame-trans}
use archipelago_hotstuff.Core.Stable.{Still-refl, Still-trans}
use archipelago_hotstuff.Core.Update.{decide_cmd, decide_cmds, commit_blk, commit_all}

-- The three pointers that a commit leaves for `update` to set.
pub record SamePointers (s t : HotStuffCore) : Type 0 where
  pub b_lock : t.b_lock ≡ s.b_lock
  pub b_exec : t.b_exec ≡ s.b_exec
  pub hqc : t.hqc ≡ s.hqc

pub SamePointers-trans :
    {s t u : HotStuffCore} → SamePointers s t → SamePointers t u → SamePointers s u
SamePointers-trans f g = record {
  b_lock = g.b_lock ∙ f.b_lock;
  b_exec = g.b_exec ∙ f.b_exec;
  hqc = g.hqc ∙ f.hqc;
}

-- The blocks `ps` were committed, in this order, and nothing else happened.
pub record Commits (s t : HotStuffCore) (ps : List Ptr) : Type 0 where
  pub still : Still s t
  pub pointers : SamePointers s t
  pub logged : log t.outputs ≡ reverse_aux ps (log s.outputs)

Commits-refl : (s : HotStuffCore) → Commits s s []
Commits-refl s = record {
  still = Still-refl s;
  pointers = record { b_lock = refl; b_exec = refl; hqc = refl };
  logged = refl;
}

-- New outputs that hold no vote.
pub outputs-Still :
    (s : HotStuffCore) (es : List Event)
    → ((u : HotStuffCore) (n : ℕ) → Falling u n s.outputs → Falling u n es)
    → Still s (record s { outputs = es })
outputs-Still s es quiet = record {
  frame = Frame-same s _ refl refl refl refl;
  vheight = refl;
  priv_key = refl;
  id = refl;
  vote_disabled = refl;
  config = refl;
  falling = quiet;
}

decide_cmds-Commits :
    (p : Ptr) (i : ℕ) (cs : List ℕ) (s : HotStuffCore) → Commits s (decide_cmds p i cs s) []
unfolding decide_cmds
decide_cmds-Commits p i [] s = Commits-refl s
decide_cmds-Commits p i (c ∷ cs) s =
    let rest = decide_cmds-Commits p (i + 1) cs (decide_cmd p i c s) in
    record {
      still = Still-trans (outputs-Still s _ (λ u n f. f)) rest.still;
      pointers =
          SamePointers-trans (record { b_lock = refl; b_exec = refl; hqc = refl }) rest.pointers;
      logged = rest.logged;
    }

commit_blk-Commits : (p : Ptr) (s : HotStuffCore) → Commits s (commit_blk p s) (p ∷ [])
unfolding commit_blk
commit_blk-Commits p s =
    let rest = decide_cmds-Commits p 0 (noted.blocks p).cmds noted in
    record {
      still = Still-trans written rest.still;
      pointers =
          SamePointers-trans (record { b_lock = refl; b_exec = refl; hqc = refl }) rest.pointers;
      logged = rest.logged;
    }
  where
    marked : HotStuffCore
    marked = set_blk p (record (s.blocks p) { decision = 1 }) s

    noted : HotStuffCore
    noted = record marked { outputs = committed p ∷ marked.outputs }

    same : SameBlock (s.blocks p) (record (s.blocks p) { decision = 1 })
    same = record {
      hash = refl;
      parent_hashes = refl;
      parents = refl;
      height = refl;
      delivered = refl;
      qc_ref = refl;
      qc = refl;
      cmds = refl;
      decided = λ _. refl;
      own = λ o. o;
    }

    written : Still s noted
    written = record {
      frame = Frame-trans (Frame-set_blk s p _ same) (Frame-same marked noted refl refl refl refl);
      vheight = refl;
      priv_key = refl;
      id = refl;
      vote_disabled = refl;
      config = refl;
      falling = λ u n f. f;
    }

-- The loop over the queue commits its blocks in order.
pub commit_all-Commits : (ps : List Ptr) (s : HotStuffCore) → Commits s (commit_all ps s) ps
unfolding commit_all
commit_all-Commits [] s = Commits-refl s
commit_all-Commits (p ∷ ps) s =
    let first = commit_blk-Commits p s in
    let rest = commit_all-Commits ps (commit_blk p s) in
    record {
      still = Still-trans first.still rest.still;
      pointers = SamePointers-trans first.pointers rest.pointers;
      logged = rest.logged ∙ ap (reverse_aux ps) first.logged;
    }

-- Blocks that climb from the head of the committed chain extend it.
pub Executed-Climbs :
    (s : HotStuffCore) (a top : Ptr) (ps xs : List Ptr)
    → Climbs s a ps top
    → Executed s a xs
    → Executed s top (reverse_aux ps xs)
Executed-Climbs s a top [] xs c e = subst (λ p. Executed s p xs) c e
Executed-Climbs s a top (p ∷ ps) xs (up, c) e =
    Executed-Climbs s p top ps (p ∷ xs) c (refl, a, up, e)
