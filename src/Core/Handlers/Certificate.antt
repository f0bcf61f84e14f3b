-- ===== src/Core/Handlers/Certificate.antt =====
-- The certificate of a block: its creation, a further part, and its completion.
use archipelago_hotstuff.Base.{
  ℕ, ◌+◌, ◌<◌, ◌≡◌, ◌≢◌, refl, sym, ap, ◌∙◌, Bool, true, false, none, some, arith, ltb, ◌==◌,
  ==_iff, Bool-cases, Option-cases, inl, inr, if◌then◌else◌, ◌&&◌, member, update_self,
  member-erase, ◌⊎◌,
}
use archipelago_hotstuff.Crypto.{
  Library, QuorumCert, PartCert, insert_sig, set_bit, new_quorum_cert, add_part,
}
use archipelago_hotstuff.Entity.{Block, Ptr}
use archipelago_hotstuff.Core.State.{HotStuffCore, Vote, ok, height, set_blk}
use archipelago_hotstuff.Core.Invariant.{IsLive, OwnCert, Sound, SameBlock, Still}
use archipelago_hotstuff.Core.Frame.{Frame-set_blk, Frame-live}
use archipelago_hotstuff.Core.Advance.{SameCore, SameCore-Sound, SameCore-Keeps}
use archipelago_hotstuff.Core.Update.{update_hqc}
use archipelago_hotstuff.Core.Update.Laws.{Quiet, Quiet-refl, Quiet-trans, update_hqc-Quiet}
use archipelago_hotstuff.Core.Handlers.Votes.{on_qc_finish, count_vote, own_qc}
use archipelago_hotstuff.Core.Handlers.Promise.{on_qc_finish-Finishes}

pub SameCore-Quiet :
    {k : ℕ} {s t : HotStuffCore} → SameCore s t → Still s t → Sound k s → Quiet k s t
SameCore-Quiet {s} {t} c still v = record {
  sound = SameCore-Sound c v (simp still.vheight (still.falling s _ v.votes));
  still = still;
  keeps = SameCore-Keeps c;
}

-- A write to a block that keeps what matters of it.
pub set_blk-Quiet :
    {k : ℕ} {s : HotStuffCore} (p : Ptr) (b : Block)
    → SameBlock (s.blocks p) b
    → Sound k s
    → Quiet k s (set_blk p b s)
set_blk-Quiet {s} p b same v =
    SameCore-Quiet
      (record {
        frame = Frame-set_blk s p b same;
        b_lock = refl;
        b_exec = refl;
        hqc = refl;
        vheight = omega arith;
        logged = refl;
      })
      (record {
        frame = Frame-set_blk s p b same;
        vheight = refl;
        priv_key = refl;
        id = refl;
        vote_disabled = refl;
        config = refl;
        falling = λ u n f. f;
      })
      v

on_qc_finish-Quiet : {k : ℕ} {s : HotStuffCore} (p : Ptr) → Sound k s → Quiet k s (on_qc_finish p s)
on_qc_finish-Quiet {s} p v =
    let f = on_qc_finish-Finishes p s in
    SameCore-Quiet f.core
      (record {
        frame = f.core.frame;
        vheight = f.vheight;
        priv_key = f.priv_key;
        id = f.id;
        vote_disabled = f.vote_disabled;
        config = f.config;
        falling = f.falling;
      })
      v

on_qc_finish-waiting : (p : Ptr) (s : HotStuffCore) → member p (on_qc_finish p s).qc_waiting ≡ false
unfolding on_qc_finish
on_qc_finish-waiting p s = elim (Bool-cases (member p s.qc_waiting)) [
  | inr idle ↦ rw idle idle
  | inl waiting ↦ rw waiting (member-erase p s.qc_waiting)
]

-- A part for another block is refused; a part for the same one leaves the certified hash.
pub add_part-cases :
    (lib : Library) (rid : ℕ) (pc : PartCert) (qc : QuorumCert)
    → ((pc.obj_hash ≢ qc.obj_hash) × (add_part lib rid pc qc ≡ none))
      ⊎ ((pc.obj_hash ≡ qc.obj_hash)
          × (qc' : QuorumCert) × (add_part lib rid pc qc ≡ some qc')
          × (qc'.obj_hash ≡ qc.obj_hash))
unfolding add_part
add_part-cases lib rid pc qc = elim (Bool-cases (pc.obj_hash == qc.obj_hash)) [
  | inr off ↦ inl (ground arith, simp off)
  | inl on ↦ inr (
    (==_iff pc.obj_hash qc.obj_hash).0 on,
    record qc { sigs = insert_sig rid pc.sig qc.sigs; rids = set_bit lib rid qc.rids },
    rw on refl,
    refl,
  )
]

-- The certificate that a block collects votes in, an empty one before the first vote.
abbrev pub own_cert_of : ℕ → Block → QuorumCert
own_cert_of n b = elim b.self_qc [ some qc ↦ qc | none ↦ new_quorum_cert n b.hash ]

abbrev pub own_cert : HotStuffCore → Ptr → QuorumCert
own_cert s p = own_cert_of s.config.nreplicas (s.blocks p)

pub OwnCert-some :
    (b : Block) (qc : QuorumCert) → qc.obj_hash ≡ b.hash → OwnCert (record b { self_qc = some qc })
OwnCert-some b qc e c h = let same : qc ≡ c = cc in sym (ap (λ q. q.obj_hash) same) ∙ e

-- A write that leaves the votes for `p` and the highest certificate.
pub record Prepares (k : ℕ) (s : HotStuffCore) (p : Ptr) (t : HotStuffCore) : Type 0 where
  pub quiet : Quiet k s t
  pub voted : (t.blocks p).voted ≡ (s.blocks p).voted
  pub hqc : t.hqc ≡ s.hqc

pub own_qc-ok :
    {k : ℕ} {s : HotStuffCore} (p : Ptr)
    → p < s.next_ptr
    → Sound k s
    → (t : HotStuffCore) × (own_qc p s ≡ ok (own_cert s p) t)
      × Prepares k s p t
      × ((own_cert s p).obj_hash ≡ (s.blocks p).hash)
unfolding own_qc new_quorum_cert
own_qc-ok {s} p lt v = elim (Option-cases (s.blocks p).self_qc) [
  | inr (qc, e) ↦ (
    s,
    rw (e, own_qc, own_cert, own_cert_of) refl,
    record { quiet = Quiet-refl _ s v; voted = refl; hqc = refl },
    rw (e, own_cert, own_cert_of) ((v.inv.good p lt).own qc e),
  )
  | inl e ↦
      let qc = new_quorum_cert s.config.nreplicas (s.blocks p).hash in
      let b : Block = record (s.blocks p) { self_qc = some qc } in
      (
        set_blk p b s,
        rw (e, own_qc, own_cert, own_cert_of) refl,
        record {
          quiet =
              set_blk-Quiet p b
                (record {
                  hash = refl;
                  parent_hashes = refl;
                  parents = refl;
                  height = refl;
                  delivered = refl;
                  qc_ref = refl;
                  qc = refl;
                  cmds = refl;
                  decided = λ d. d;
                  own = λ _. OwnCert-some (s.blocks p) qc refl;
                })
                v;
          voted = ap (λ c. c.voted) (update_self s.blocks p b);
          hqc = refl;
        },
        rw (e, own_cert, own_cert_of) refl,
      )
]

-- What counting a vote for `p` does to the highest certificate and to the promise for `p`.
pub record Completes (k : ℕ) (s : HotStuffCore) (p : Ptr) (full : Bool) (qc : QuorumCert)
    (t : HotStuffCore) : Type 0 where
  pub quiet : Quiet k s t
  pub own : (t.blocks p).self_qc ≡ some qc
  pub voted : (t.blocks p).voted ≡ (s.blocks p).voted
  pub hqc : t.hqc ≡ (if full && ltb (height s s.hqc.0) (height s p) then (p, qc) else s.hqc)
  pub told : full ≡ true → member p t.qc_waiting ≡ false

update_hqc-hqc :
    (p : Ptr) (qc : QuorumCert) (s : HotStuffCore)
    → ((update_hqc p qc s).hqc ≡ (if ltb (height s s.hqc.0) (height s p) then (p, qc) else s.hqc))
      × ((update_hqc p qc s).blocks ≡ s.blocks)
unfolding update_hqc
update_hqc-hqc p qc s = elim (Bool-cases (ltb (height s s.hqc.0) (height s p))) [
  | inr low ↦ (rw low refl, rw low refl)
  | inl high ↦ (rw high refl, rw high refl)
]

module _ {k : ℕ} {s : HotStuffCore} (p : Ptr) (v : Sound k s) (l : IsLive s p) where
  finish :
      (qc : QuorumCert)
      → qc.obj_hash ≡ (s.blocks p).hash
      → (s.blocks p).self_qc ≡ some qc
      → Completes k s p true qc (on_qc_finish p (update_hqc p qc s))
  finish qc e own =
      let q = update_hqc-Quiet v p qc l e in
      let (h, same) = update_hqc-hqc p qc s in
      let f = on_qc_finish-Finishes p (update_hqc p qc s) in
      let b : (on_qc_finish p (update_hqc p qc s)).blocks ≡ s.blocks = f.blocks ∙ same in
      record {
        quiet = Quiet-trans q (on_qc_finish-Quiet p q.sound);
        own = rw b own;
        voted = rw b refl;
        hqc = f.core.hqc ∙ h;
        told = λ _. on_qc_finish-waiting p (update_hqc p qc s);
      }

  stored : QuorumCert → HotStuffCore
  stored qc = set_blk p (record (s.blocks p) { self_qc = some qc }) s

  stored-hqc : (qc : QuorumCert) → (stored qc).hqc ≡ s.hqc
  unfolding stored
  stored-hqc qc = refl

  stored-Quiet : (qc : QuorumCert) → qc.obj_hash ≡ (s.blocks p).hash → Quiet k s (stored qc)
  unfolding stored
  stored-Quiet qc e =
      set_blk-Quiet p _
        (record {
          hash = refl;
          parent_hashes = refl;
          parents = refl;
          height = refl;
          delivered = refl;
          qc_ref = refl;
          qc = refl;
          cmds = refl;
          decided = λ d. d;
          own = λ _. OwnCert-some (s.blocks p) qc e;
        })
        v

  stored-block :
      (qc : QuorumCert) → (stored qc).blocks p ≡ record (s.blocks p) { self_qc = some qc }
  unfolding stored
  stored-block qc = update_self s.blocks p _

module _ {k : ℕ} {s : HotStuffCore} (p : Ptr) (v : Sound k s) (l : IsLive s p) where
  finish_stored :
      (qc : QuorumCert)
      → qc.obj_hash ≡ (s.blocks p).hash
      → Completes k s p true qc (on_qc_finish p (update_hqc p qc (stored p v l qc)))
  finish_stored qc e =
      let q = stored-Quiet p v l qc e in
      let b = stored-block p v l qc in
      let c =
        finish p q.sound (Frame-live q.still.frame p l) qc (e ∙ sym (ap (λ c. c.hash) b))
          (ap (λ c. c.self_qc) b) in
      record {
        quiet = Quiet-trans q c.quiet;
        own = c.own;
        voted = c.voted ∙ ap (λ c. c.voted) b;
        hqc =
            c.hqc
            ∙ rw
                (
                  stored-hqc p v l qc,
                  (q.still.frame.blocks p).height,
                  (q.still.frame.blocks s.hqc.0).height,
                )
                refl;
        told = c.told;
      }

  pub count_vote-Completes :
      (lib : Library) (n : ℕ) (vote : Vote) (qc qc' : QuorumCert)
      → add_part lib vote.voter vote.cert qc ≡ some qc'
      → qc'.obj_hash ≡ (s.blocks p).hash
      → (t : HotStuffCore) × (count_vote lib p n vote qc s ≡ ok tt t)
        × Completes k s p (n + 1 == s.config.nmajority) qc' t
  unfolding count_vote stored
  count_vote-Completes lib n vote qc qc' e eh = elim (Bool-cases (n + 1 == s.config.nmajority)) [
    | inr more ↦
        let b = stored-block p v l qc' in
        (
          stored p v l qc',
          rw (e, count_vote, more) refl,
          rw more (record {
            quiet = stored-Quiet p v l qc' eh;
            own = ap (λ c. c.self_qc) b;
            voted = ap (λ c. c.voted) b;
            hqc = refl;
            told = λ x. cc;
          }),
        )
    | inl full ↦ (
      on_qc_finish p (update_hqc p qc' (stored p v l qc')),
      rw (e, count_vote, full) refl,
      rw full (finish_stored qc' eh),
    )
  ]
