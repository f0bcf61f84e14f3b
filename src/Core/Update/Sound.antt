-- ===== src/Core/Update/Sound.antt =====
-- `update` on a delivered block: it is sound, and it fails only on a breach.
use archipelago_hotstuff.Base.{
  ℕ, ◌<◌, ◌≡◌, ◌≢◌, refl, ap, ◌∙◌, subst, Bool, true, false, not, Option, none, some, arith, le→ltb,
  ◌==◌, ==_iff, Bool-cases, ◌⊎◌, inl, inr,
}
use archipelago_hotstuff.Crypto.{QuorumCert}
use archipelago_hotstuff.Entity.{Ptr}
use archipelago_hotstuff.Core.State.{HotStuffCore, Res, ok, height}
use archipelago_hotstuff.Core.Invariant.{IsLive, IsChild, Link, root, above, Sound}
use archipelago_hotstuff.Core.Frame.{Frame-live}
use archipelago_hotstuff.Core.Post.{Post, returns, mono}
use archipelago_hotstuff.Core.Update.{
  update_hqc, update_hqc_by, not_direct, lock, update_commit, update_lock, update_high, update_blk,
}
use archipelago_hotstuff.Core.Update.Chain.{IsChild-parent_of}
use archipelago_hotstuff.Core.Update.Laws.{
  Quiet, Breach, Quiet-refl, Quiet-trans, update_hqc-Quiet, lock-Quiet, commit_to-Ends,
}

-- The way `update` ends, from `s`.
abbrev pub Ends : ℕ → HotStuffCore → Res (Unit {0}) → Type 0
Ends k s r = Post (λ _ t. Quiet k s t) (Breach k s) r

Ends-after :
    {k : ℕ} {s t : HotStuffCore} (r : Res (Unit {0})) → Quiet k s t → Ends k t r → Ends k s r
Ends-after r q ends =
    mono ends (λ _ u q'. Quiet-trans q q')
      (λ e u b. record { error = b.error; quiet = Quiet-trans q b.quiet })

-- A delivered block above the genesis block.
abbrev IsAbove : HotStuffCore → Ptr → Type 0
IsAbove s p = (p ≢ s.b0) × IsLive s p

Quiet-IsAbove : {k : ℕ} {s t : HotStuffCore} (p : Ptr) → Quiet k s t → IsAbove s p → IsAbove t p
Quiet-IsAbove p q (ne, l) = (λ e. ne (e ∙ q.still.frame.b0), Frame-live q.still.frame p l)

module _ {k : ℕ} {s : HotStuffCore} (v : Sound k s) where
  open v use {inv}

  Link-ne_root : (p : Ptr) → p ≢ s.b0 → IsLive s p → Link s p → (q : Ptr) × IsChild s p q
  Link-ne_root p ne l (root e) = absurd (ne e)
  Link-ne_root p ne l (above q rest e m st) =
      (q, record { rest = rest; parents = e; live = l; parent = m; step = st })

  child_of : (p : Ptr) → p ≢ s.b0 → IsLive s p → (q : Ptr) × IsChild s p q
  child_of p ne l = Link-ne_root p ne l ((inv.good p l.in_memory).link l.is_delivered)

  -- An undecided block is not the genesis block.
  ne_root : (p : Ptr) → ((s.blocks p).decision == 0) ≡ true → p ≢ s.b0
  ne_root p pending e =
      absurd (
        omega (arith, inv.genesis.final, ap (λ q. (s.blocks q).decision) e, (==_iff _ 0).0 pending))

  not_direct-ok :
      (blk2 blk1 blk : Ptr)
      → IsAbove s blk2
      → IsAbove s blk1
      → (b : Bool) × (not_direct blk2 blk1 blk s ≡ ok b s) × (b ≡ false → IsLive s blk)
  unfolding not_direct
  not_direct-ok blk2 blk1 blk (n2, l2) (n1, l1) =
      let (q2, c2) = child_of blk2 n2 l2 in
      let (q1, c1) = child_of blk1 n1 l1 in
      elim (Bool-cases (q2 == blk1)) [
        | inr other ↦ (true, rw (IsChild-parent_of c2, other), λ e. cc)
        | inl direct ↦ (
          not (q1 == blk),
          rw (IsChild-parent_of c2, direct, IsChild-parent_of c1),
          λ e. subst (IsLive s) ((==_iff q1 blk).0 (ground arith)) c1.parent,
        )
      ]

  update_commit-Ends :
      (blk2 blk1 : Ptr) (r : Option Ptr)
      → IsAbove s blk2
      → IsAbove s blk1
      → Ends k s (update_commit blk2 blk1 r s)
  unfolding update_commit
  update_commit-Ends blk2 blk1 none l2 l1 = returns (Quiet-refl k s v)
  update_commit-Ends blk2 blk1 (some blk) l2 l1 =
      let (b, e, live) = not_direct-ok blk2 blk1 blk l2 l1 in
      elim (Bool-cases ((s.blocks blk).decision == 0)) [
        | inr final ↦ rw final (returns (Quiet-refl k s v))
        | inl pending ↦
            rw (pending, e)
              (elim (Bool-cases b) [
                | inl apart ↦ rw apart (returns (Quiet-refl k s v))
                | inr direct ↦ rw direct (commit_to-Ends v blk (live direct))
              ])
      ]

  idle_hqc : (p : Ptr) (qc : QuorumCert) → height s p ≡ 0 → update_hqc p qc s ≡ s
  unfolding update_hqc
  idle_hqc p qc e = rw (le→ltb (height s p) (height s s.hqc.0) (omega (arith, e)))

  idle_lock : (p : Ptr) → height s p ≡ 0 → lock p s ≡ s
  unfolding lock
  idle_lock p e = rw (le→ltb (height s p) (height s s.b_lock) (omega (arith, e)))

module _ {k : ℕ} {s : HotStuffCore} (v : Sound k s) where
  open v use {inv}

  -- A block in memory is delivered, or has neither height nor reference.
  delivered_cases :
      (p : Ptr) → p < s.next_ptr → IsLive s p ⊎ ((height s p ≡ 0) × ((s.blocks p).qc_ref ≡ none))
  delivered_cases p lt = elim (Bool-cases (s.blocks p).delivered) [
    | inl d ↦ inl (record { in_memory = lt; is_delivered = d })
    | inr d ↦ inr ((inv.good p lt).bare d)
  ]

  lock_commit-Ends :
      (blk2 blk1 : Ptr)
      → IsAbove s blk2
      → blk1 < s.next_ptr
      → blk1 ≢ s.b0
      → Ends k s (update_commit blk2 blk1 (s.blocks blk1).qc_ref (lock blk1 s))
  lock_commit-Ends blk2 blk1 a2 lt ne = elim (delivered_cases blk1 lt) [
    | inl l ↦
        let q = lock-Quiet v blk1 l in
        Ends-after _ q (
          update_commit-Ends q.sound blk2 blk1 _ (Quiet-IsAbove blk2 q a2)
            (Quiet-IsAbove blk1 q (ne, l)))
    | inr (flat, bare) ↦
        rw (idle_lock v blk1 flat, bare) (unfold update_commit in returns (Quiet-refl k s v))
  ]

  update_lock-Ends :
      (blk2 : Ptr) (r : Option Ptr)
      → IsAbove s blk2
      → (s.blocks blk2).qc_ref ≡ r
      → Ends k s (update_lock blk2 r s)
  unfolding update_lock
  update_lock-Ends blk2 none a2 e = returns (Quiet-refl k s v)
  update_lock-Ends blk2 (some blk1) a2 e = elim (Bool-cases ((s.blocks blk1).decision == 0)) [
    | inr final ↦ rw final (returns (Quiet-refl k s v))
    | inl pending ↦ rw pending (
        lock_commit-Ends blk2 blk1 a2 ((inv.good blk2 a2.1.in_memory).ref blk1 e).target
          (ne_root v blk1 pending))
  ]

module _ {k : ℕ} {s : HotStuffCore} (v : Sound k s) where
  open v use {inv}

  high_lock-Ends :
      (blk2 : Ptr) (qc : QuorumCert)
      → blk2 < s.next_ptr
      → blk2 ≢ s.b0
      → qc.obj_hash ≡ (s.blocks blk2).hash
      → Ends k s
          (update_lock blk2 ((update_hqc blk2 qc s).blocks blk2).qc_ref (update_hqc blk2 qc s))
  high_lock-Ends blk2 qc lt ne e = elim (delivered_cases v blk2 lt) [
    | inl l ↦
        let q = update_hqc-Quiet v blk2 qc l e in
        Ends-after _ q (update_lock-Ends q.sound blk2 _ (Quiet-IsAbove blk2 q (ne, l)) refl)
    | inr (flat, bare) ↦
        rw (idle_hqc v blk2 qc flat, bare) (unfold update_lock in returns (Quiet-refl k s v))
  ]

  update_high-Ends :
      (nblk : Ptr) (r : Option Ptr)
      → IsLive s nblk
      → (s.blocks nblk).qc_ref ≡ r
      → Ends k s (update_high nblk r s)
  unfolding update_high
  update_high-Ends nblk none l e = returns (Quiet-refl k s v)
  update_high-Ends nblk (some blk2) l e =
      let ref = (inv.good nblk l.in_memory).ref blk2 e in
      elim (Bool-cases ((s.blocks blk2).decision == 0)) [
        | inr final ↦ rw final (returns (Quiet-refl k s v))
        | inl pending ↦
            rw (pending, ref.carried, update_hqc_by)
              (high_lock-Ends blk2 ref.cert ref.target (ne_root v blk2 pending) ref.certifies)
      ]

  -- `update` of a delivered block keeps a replica sound, casts no vote, and throws only `safety
  -- breached`: it never dereferences a missing parent and its walk always ends.
  pub update_blk-Ends : (nblk : Ptr) → IsLive s nblk → Ends k s (update_blk nblk s)
  unfolding update_blk
  update_blk-Ends nblk l = update_high-Ends nblk _ l refl
