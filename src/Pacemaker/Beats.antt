-- ===== src/Pacemaker/Beats.antt =====
-- PMWaitQC: the beats are resolved in the order of the requests, and none waits without a reason.
use archipelago_hotstuff.Base.{
  ℕ, suc, ◌+◌, ◌≤◌, length, if◌then◌else◌, ◌≡◌, Bool, true, false, Option, none, some, List, [],
  ◌∷◌, ◌++◌,
}
use archipelago_hotstuff.Entity.{Ptr}
use archipelago_hotstuff.Pacemaker.{WaitQc, init_wait, on_qc, on_own_proposal, request_beat}

-- The resolved beats, oldest first, and then the others.
abbrev pub in_order : List (ℕ × ℕ) → List ℕ → List ℕ
in_order [] rest = rest
in_order (r ∷ rs) rest = in_order rs (r.0 ∷ rest)

-- The beats that are not resolved.
abbrev pub unresolved : Option (Ptr × ℕ) → List ℕ → List ℕ
unresolved none q = q
unresolved (some w) q = w.1 ∷ q

-- The beats `bs` were requested, in this order: the first ones are resolved, the next one waits for
-- the certificate of the last proposed block, and the others wait behind it. Behind `k` proposals at
-- most `k + 1` beats have been resolved or wait so, and at most `k` while the pace maker is not
-- locked. If none waits so, and
-- the pace maker is not locked, all beats are resolved.
pub record FirstInFirstOut (bs : List ℕ) (k : ℕ) (s : WaitQc) : Type 0 where
  pub order : in_order s.resolved (unresolved s.qc_finish s.pending_beats) ≡ bs
  pub waits :
      (blk : Ptr) (pm : ℕ)
      → s.qc_finish ≡ some (blk, pm)
      → (blk ≡ s.last_proposed) × (s.locked ≡ true)
  pub idle : s.locked ≡ false → s.pending_beats ≡ []
  pub paced :
      length s.resolved + length (unresolved s.qc_finish []) ≤ k + (if s.locked then 1 else 0)

-- What happens to the pace maker. A proposal is that of a resolved beat, so that none waits for a
-- certificate then; the blocks with a certificate are others at each step.
pub data Steps (proposer : ℕ) (genesis : Ptr) : List ℕ → ℕ → WaitQc → Type 0 where
  start : Steps proposer genesis [] 0 (init_wait proposer genesis)
  beat :
      (fin : Ptr → Bool) (pm : ℕ) {bs : List ℕ} {k : ℕ} {s : WaitQc}
      → Steps proposer genesis bs k s
      → Steps proposer genesis (bs ++ pm ∷ []) k (request_beat fin pm s)
  qc :
      (blk : Ptr) {bs : List ℕ} {k : ℕ} {s : WaitQc}
      → Steps proposer genesis bs k s
      → Steps proposer genesis bs k (on_qc blk s)
  propose :
      (fin : Ptr → Bool) (blk : Ptr) {bs : List ℕ} {k : ℕ} {s : WaitQc}
      → s.qc_finish ≡ none
      → Steps proposer genesis bs k s
      → Steps proposer genesis bs (suc k) (on_own_proposal fin blk s)
