-- ===== src/Pacemaker/Tail.antt =====
-- PMHighTail: the block that a new block stands on.
use archipelago_hotstuff.Base.{
  ℕ, suc, ◌≤◌, ◌≡◌, ◌↔◌, refl, sym, ap, ◌∙◌, subst, Bool, true, Bool-cases, inl, inr, ◌&&◌, List,
  [], ◌∷◌, arith, ltb, ◌==◌, ==_iff, if◌then◌else◌, All,
}
use archipelago_hotstuff.Entity.{Ptr}
use archipelago_hotstuff.Core.State.{HotStuffCore, M, Res, ok, throws, then_run, height}
use archipelago_hotstuff.Core.Invariant.{IsLive, Inv, Sound}
use archipelago_hotstuff.Core.Update.Chain.{Extends, self, descend-Extends, descend-ancestor}
use archipelago_hotstuff.Core.Handlers.Voting.{descend}

-- `check_ancestry`, whose loop is that of the safety condition, with a round for each height.
unfoldable pub check_ancestry : Ptr → Ptr → M Bool
unfolding descend
check_ancestry a b s = then_run (descend (suc (height s b)) (height s a) b s) (λ c t. ok (c == a) t)

-- `blk`, if it is a descendant of `hqc` above `tail`.
unfoldable pub higher_tail : (hqc blk tail : Ptr) → M Ptr
unfolding check_ancestry
higher_tail hqc blk tail s =
    then_run (check_ancestry hqc blk s)
      (λ up t. ok (if up && ltb (height t tail) (height t blk) then blk else tail) t)

-- The loop over the tails.
unfoldable pub high_tail : (hqc : Ptr) → List Ptr → (tail : Ptr) → M Ptr
unfolding higher_tail
high_tail hqc [] tail s = ok tail s
high_tail hqc (blk ∷ tails) tail s = then_run (higher_tail hqc blk tail s) (high_tail hqc tails)

-- The callback of `reg_hqc_update`: the new `hqc_tail`.
unfoldable pub on_hqc_update : M Ptr
unfolding high_tail
on_hqc_update s = high_tail s.hqc.0 s.tails s.hqc.0 s

-- The callback of `reg_receive_proposal`.
unfoldable pub on_received : (blk tail : Ptr) → M Ptr
unfolding higher_tail
on_received blk tail s = higher_tail s.hqc.0 blk tail s

unfoldable pub get_parents : (tail : Ptr) → List Ptr
get_parents tail = tail ∷ []

module _ {k : ℕ} {s : HotStuffCore} (i : Inv k s) where
  check_ancestry-Extends :
      (a b : Ptr)
      → IsLive s b
      → (up : Bool) × (check_ancestry a b s ≡ ok up s) × ((up ≡ true) ↔ Extends s a b)
  unfolding check_ancestry
  check_ancestry-Extends a b live =
      let (c, e, x, low) = descend-Extends i (suc (height s b)) (height s a) b (omega arith) live in
      (
        c == a,
        rw e refl,
        (
          (λ y. subst (λ r. Extends s r b) ((==_iff c a).0 y) x),
          (λ z.
              let found = descend-ancestor (suc (height s b)) a b (omega arith) z in
              let same : c ≡ a =
                ap (λ (r : Res Ptr). elim r as (λ _. Ptr) [ ok q t ↦ q | throws err t ↦ c ])
                  (sym e ∙ found) in
              (==_iff c a).1 same),
        ),
      )

  -- The better one of two tails.
  pub record Better (hqc blk tail r : Ptr) : Type 0 where
    pub live : IsLive s r
    pub extends : Extends s hqc r
    pub above_tail : height s tail ≤ height s r
    pub above_blk : Extends s hqc blk → height s blk ≤ height s r

  higher_tail-Better :
      (hqc blk tail : Ptr)
      → IsLive s blk
      → IsLive s tail
      → Extends s hqc tail
      → (r : Ptr) × (higher_tail hqc blk tail s ≡ ok r s) × Better hqc blk tail r
  unfolding higher_tail
  higher_tail-Better hqc blk tail live_blk live_tail x =
      let (up, e, means) = check_ancestry-Extends hqc blk live_blk in
      elim (Bool-cases up) [
        | inr no_child ↦ (
          tail,
          rw (e, no_child) refl,
          record {
            live = live_tail;
            extends = x;
            above_tail = omega arith;
            above_blk = λ z. let y = means.1 z in cc;
          },
        )
        | inl is_child ↦ elim (Bool-cases (ltb (height s tail) (height s blk))) [
          | inl above ↦ (
            blk,
            rw (e, is_child, above) refl,
            record {
              live = live_blk;
              extends = means.0 is_child;
              above_tail = ground (arith, above);
              above_blk = λ z. omega arith;
            },
          )
          | inr below ↦ (
            tail,
            rw (e, is_child, below) refl,
            record {
              live = live_tail;
              extends = x;
              above_tail = omega arith;
              above_blk = λ z. ground (arith, below);
            },
          )
        ]
      ]

  high_tail-Highest :
      (hqc : Ptr) (tails : List Ptr) (tail : Ptr)
      → All (IsLive s) tails
      → IsLive s tail
      → Extends s hqc tail
      → (r : Ptr) × (high_tail hqc tails tail s ≡ ok r s)
        × IsLive s r
        × Extends s hqc r
        × (height s tail ≤ height s r)
        × All (λ b. Extends s hqc b → height s b ≤ height s r) tails
  unfolding high_tail
  high_tail-Highest hqc [] tail lives live x = (tail, refl, live, x, omega arith, tt)
  high_tail-Highest hqc (blk ∷ tails) tail (live_blk, lives) live x =
      let (m, e, better) = higher_tail-Better hqc blk tail live_blk live x in
      let (r, f, live_r, x_r, above, all) =
        high_tail-Highest hqc tails m lives better.live better.extends in
      (
        r,
        rw e f,
        live_r,
        x_r,
        omega (arith, above, better.above_tail),
        ((λ z. let y = better.above_blk z in omega (arith, y, above)), all),
      )

-- In a sound replica whose tails are delivered, a new highest certified block makes PMHighTail choose a
-- delivered block to build on that descends from it, and that is as high as every tail that does; the
-- walks along the parents end, and the replica is left as it is.
pub on_hqc_update-Highest :
    {k : ℕ} {s : HotStuffCore}
    → Sound k s
    → All (IsLive s) s.tails
    → (r : Ptr) × (on_hqc_update s ≡ ok r s)
      × IsLive s r
      × Extends s s.hqc.0 r
      × All (λ b. Extends s s.hqc.0 b → height s b ≤ height s r) s.tails
unfolding on_hqc_update
on_hqc_update-Highest {s} v lives =
    let (r, e, live, x, _, all) =
      high_tail-Highest v.inv s.hqc.0 s.tails s.hqc.0 lives v.inv.pointers.high self in
    (r, e, live, x, all)
