-- ===== src/Core/Stable.antt =====
-- The committed chain and the votes survive every change that keeps the delivered blocks.
use archipelago_hotstuff.Base.{ℕ, ◌≤◌, ◌≡◌, refl, sym, ◌∙◌, List, [], ◌∷◌, arith}
use archipelago_hotstuff.Entity.{Ptr}
use archipelago_hotstuff.Core.State.{
  HotStuffCore, Event, decided, committed, broadcast, voted, qc_finished, proposed, received,
  hqc_updated, height,
}
use archipelago_hotstuff.Core.Invariant.{IsLive, IsChild, Climbs, Executed, Falling, Keeps, Still}
use archipelago_hotstuff.Core.Frame.{Keeps-live, Frame-refl, Frame-trans}

module _ {s t : HotStuffCore} (k : Keeps s t) where
  pub Keeps-height : (p : Ptr) → IsLive s p → height t p ≡ height s p
  Keeps-height p l = (k.blocks p l).height

  pub Keeps-child : {p q : Ptr} → IsChild s p q → IsChild t p q
  Keeps-child {p} {q} c = record {
    rest = c.rest;
    parents = (k.blocks p c.live).parents ∙ c.parents;
    live = Keeps-live p k c.live;
    parent = Keeps-live q k c.parent;
    step = omega (arith, Keeps-height p c.live, Keeps-height q c.parent, c.step);
  }

  pub Keeps-Climbs : (a : Ptr) (ps : List Ptr) (top : Ptr) → Climbs s a ps top → Climbs t a ps top
  Keeps-Climbs a [] top c = c
  Keeps-Climbs a (p ∷ ps) top c = (Keeps-child c.0, Keeps-Climbs p ps top c.1)

  pub Keeps-Executed : (p : Ptr) (xs : List Ptr) → Executed s p xs → Executed t p xs
  Keeps-Executed p [] e = e ∙ sym k.b0
  Keeps-Executed p (x ∷ xs) (e, q, c, rest) = (e, q, Keeps-child c, Keeps-Executed q xs rest)

  pub Keeps-Falling : (n : ℕ) (es : List Event) → Falling s n es → Falling t n es
  Keeps-Falling n [] f = tt
  Keeps-Falling n (voted _ v ∷ es) (p, e, l, lt, f) =
      let same = Keeps-height p l in
      (
        p,
        k.found _ p e,
        Keeps-live p k l,
        omega (arith, same),
        rw same (Keeps-Falling (height s p) es f),
      )
  Keeps-Falling n (broadcast prop ∷ es) (l, lt, f) =
      let same = Keeps-height prop.blk l in
      (
        Keeps-live prop.blk k l,
        omega (arith, same),
        rw same (Keeps-Falling (height s prop.blk) es f),
      )
  Keeps-Falling n (decided _ ∷ es) f = Keeps-Falling n es f
  Keeps-Falling n (committed _ ∷ es) f = Keeps-Falling n es f
  Keeps-Falling n (qc_finished _ ∷ es) f = Keeps-Falling n es f
  Keeps-Falling n (proposed _ ∷ es) f = Keeps-Falling n es f
  Keeps-Falling n (received _ ∷ es) f = Keeps-Falling n es f
  Keeps-Falling n (hqc_updated ∷ es) f = Keeps-Falling n es f

pub Falling-mono :
    (s : HotStuffCore) (n m : ℕ) (es : List Event) → n ≤ m → Falling s n es → Falling s m es
Falling-mono s n m [] h f = tt
Falling-mono s n m (voted _ v ∷ es) h (p, e, l, lt, f) = (p, e, l, omega arith, f)
Falling-mono s n m (broadcast prop ∷ es) h (l, lt, f) = (l, omega arith, f)
Falling-mono s n m (decided _ ∷ es) h f = Falling-mono s n m es h f
Falling-mono s n m (committed _ ∷ es) h f = Falling-mono s n m es h f
Falling-mono s n m (qc_finished _ ∷ es) h f = Falling-mono s n m es h f
Falling-mono s n m (proposed _ ∷ es) h f = Falling-mono s n m es h f
Falling-mono s n m (received _ ∷ es) h f = Falling-mono s n m es h f
Falling-mono s n m (hqc_updated ∷ es) h f = Falling-mono s n m es h f

pub Still-refl : (s : HotStuffCore) → Still s s
Still-refl s = record {
  frame = Frame-refl s;
  vheight = refl;
  priv_key = refl;
  id = refl;
  vote_disabled = refl;
  config = refl;
  falling = λ u n f. f;
}

pub Still-trans : {s t u : HotStuffCore} → Still s t → Still t u → Still s u
Still-trans f g = record {
  frame = Frame-trans f.frame g.frame;
  vheight = g.vheight ∙ f.vheight;
  priv_key = g.priv_key ∙ f.priv_key;
  id = g.id ∙ f.id;
  vote_disabled = g.vote_disabled ∙ f.vote_disabled;
  config = g.config ∙ f.config;
  falling = λ u n h. g.falling u n (f.falling u n h);
}
