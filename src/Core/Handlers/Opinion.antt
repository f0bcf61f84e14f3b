-- ===== src/Core/Handlers/Opinion.antt =====
-- The voting rule: when `on_receive_proposal` forms a positive opinion.
use archipelago_hotstuff.Base.{
  ℕ, suc, ◌<◌, ◌≡◌, ◌↔◌, refl, sym, ap, ◌∙◌, subst, Bool, true, false, Option, none, some, arith,
  ltb, ltb→lt, lt→ltb, ◌==◌, ==_iff, Bool-cases, ◌⊎◌, inl, inr, if◌then◌else◌,
}
use archipelago_hotstuff.Entity.{Ptr}
use archipelago_hotstuff.Core.State.{HotStuffCore, Res, ok, throws, height}
use archipelago_hotstuff.Core.Invariant.{IsLive, Inv}
use archipelago_hotstuff.Core.Handlers.Voting.{opine, descend, is_live}
use archipelago_hotstuff.Core.Update.Chain.{Extends, descend-Extends, descend-ancestor}

-- The liveness condition: the block's certificate is for a block above the locked one.
abbrev pub IsNewer : HotStuffCore → Option Ptr → Type 0
IsNewer s none = ⊥
IsNewer s (some q) = height s s.b_lock < height s q

-- The rule of the protocol: a block above the last vote that satisfies the liveness condition or
-- extends the locked branch.
abbrev pub MayVote : HotStuffCore → Ptr → Type 0
MayVote s p = (s.vheight < height s p) × (IsNewer s (s.blocks p).qc_ref ⊎ Extends s s.b_lock p)

-- The state behind an opinion.
abbrev pub opined : Bool → Ptr → HotStuffCore → HotStuffCore
opined b p s = record s { vheight = if b then height s p else s.vheight }

pub record Opinion (s : HotStuffCore) (p : Ptr) : Type 0 where
  pub opinion : Bool
  pub result : opine p s ≡ ok opinion (opined opinion p s)
  pub rule : (opinion ≡ true) ↔ MayVote s p

is_live-IsNewer : (s : HotStuffCore) (r : Option Ptr) → (is_live s r ≡ true) ↔ IsNewer s r
unfolding is_live
is_live-IsNewer s none = (λ e. cc, λ h. absurd h)
is_live-IsNewer s (some q) = (ltb→lt _ _, lt→ltb _ _)

module _ {k : ℕ} {s : HotStuffCore} (i : Inv k s) where
  -- The safety condition decides whether the block extends the locked one.
  record Branch (p : Ptr) : Type 0 where
    meets : Ptr
    walk : descend (suc (height s p)) (height s s.b_lock) p s ≡ ok meets s
    extends : ((meets == s.b_lock) ≡ true) ↔ Extends s s.b_lock p

  ok_ptr : Ptr → Res Ptr → Ptr
  ok_ptr p (ok q _) = q
  ok_ptr p (throws _ _) = p

  branch : (p : Ptr) → IsLive s p → Branch p
  unfolding ok_ptr
  branch p l =
      let (r, e, x, low) =
        descend-Extends i (suc (height s p)) (height s s.b_lock) p (omega arith) l in
      record {
        meets = r;
        walk = e;
        extends = (
          λ h. subst (λ b. Extends s b p) ((==_iff r s.b_lock).0 h) x,
          λ y. (==_iff r s.b_lock).1 (
              ap (ok_ptr p)
                (sym e ∙ descend-ancestor (suc (height s p)) s.b_lock p (omega arith) y)),
        );
      }

  refused :
      {p : Ptr}
      → (IsNewer s (s.blocks p).qc_ref ⊎ Extends s s.b_lock p)
      → ((is_live s (s.blocks p).qc_ref ≡ true) ↔ IsNewer s (s.blocks p).qc_ref)
      → (b : Branch p) → is_live s (s.blocks p).qc_ref ≡ false
      → (b.meets == s.b_lock) ≡ false
      → false ≡ true
  refused (inl newer) live b not_newer off = sym not_newer ∙ live.1 newer
  refused (inr x) live b not_newer off = sym off ∙ b.extends.1 x

  -- The opinion is the voting rule, and it raises `vheight` exactly when it is positive.
  pub opine-Opinion : (p : Ptr) → IsLive s p → Opinion s p
  unfolding opine
  opine-Opinion p l =
      let b = branch p l in
      let live = is_live-IsNewer s (s.blocks p).qc_ref in
      elim (Bool-cases (ltb s.vheight (height s p))) [
        | inr old ↦ record {
          opinion = false;
          result = rw (old, opine);
          rule = (λ e. cc, λ m. cc (lt→ltb _ _ m.0));
        }
        | inl new ↦ elim (Bool-cases (is_live s (s.blocks p).qc_ref)) [
          | inl newer ↦ record {
            opinion = true;
            result = rw (new, newer, opine);
            rule = (λ _. (ltb→lt _ _ new, inl (live.0 newer)), λ _. refl);
          }
          | inr not_newer ↦ elim (Bool-cases (b.meets == s.b_lock)) [
            | inl on ↦ record {
              opinion = true;
              result = rw (new, not_newer, b.walk, on, opine);
              rule = (λ _. (ltb→lt _ _ new, inr (b.extends.0 on)), λ _. refl);
            }
            | inr off ↦ record {
              opinion = false;
              result = rw (new, not_newer, b.walk, off, opine);
              rule = (λ e. cc, λ m. refused m.1 live b not_newer off);
            }
          ]
        ]
      ]
