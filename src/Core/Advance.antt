-- ===== src/Core/Advance.antt =====
-- Changes that leave the blocks and the pointers alone, and what a handler leaves behind.
use archipelago_hotstuff.Base.{ℕ, suc, ◌≤◌, ◌≡◌, refl, sym, ap, ◌∙◌, subst, arith}
use archipelago_hotstuff.Core.State.{HotStuffCore, height}
use archipelago_hotstuff.Core.Invariant.{Sound, Falling, Executed, Frame, Keeps, log}
use archipelago_hotstuff.Core.Frame.{
  Frame-same, Frame-Inv_still, Frame-Keeps, Frame-trans, Keeps-trans,
}
use archipelago_hotstuff.Core.Stable.{Keeps-Executed, Keeps-Falling}

-- Only outputs, promises and `vheight` differ: the blocks and the pointers are the same.
pub record SameCore (s t : HotStuffCore) : Type 0 where
  pub frame : Frame s t
  pub b_lock : t.b_lock ≡ s.b_lock
  pub b_exec : t.b_exec ≡ s.b_exec
  pub hqc : t.hqc ≡ s.hqc
  pub vheight : s.vheight ≤ t.vheight
  pub logged : log t.outputs ≡ log s.outputs

pub SameCore-Keeps : {s t : HotStuffCore} → SameCore s t → Keeps s t
SameCore-Keeps {s} c =
    Frame-Keeps c.frame c.vheight (omega (arith, ap (height s) c.b_lock))
      (omega (arith, ap (λ h. height s h.0) c.hqc)) (omega (arith, ap (height s) c.b_exec))

-- Such a change is sound if its votes still fall.
pub SameCore-Sound :
    {k : ℕ} {s t : HotStuffCore}
    → SameCore s t
    → Sound k s
    → Falling s (suc t.vheight) t.outputs
    → Sound k t
SameCore-Sound {k} {s} {t} c v f = record {
  inv = Frame-Inv_still c.frame k c.b_lock c.b_exec c.hqc v.inv;
  votes = Keeps-Falling (SameCore-Keeps c) (suc t.vheight) t.outputs f;
  exec =
      subst (λ p. Executed t p (log t.outputs)) (sym c.b_exec)
        (subst (Executed t s.b_exec) (sym c.logged)
          (Keeps-Executed (SameCore-Keeps c) s.b_exec (log s.outputs) v.exec));
}

-- What a handler leaves behind.
pub record Advance (k : ℕ) (s t : HotStuffCore) : Type 0 where
  pub sound : Sound k t
  pub keeps : Keeps s t

pub SameCore-Advance :
    {k : ℕ} {s t : HotStuffCore}
    → SameCore s t
    → Sound k s
    → Falling s (suc t.vheight) t.outputs
    → Advance k s t
SameCore-Advance c v f = record { sound = SameCore-Sound c v f; keeps = SameCore-Keeps c }

pub SameCore-refl : (s : HotStuffCore) → SameCore s s
SameCore-refl s = record {
  frame = Frame-same s s refl refl refl refl;
  b_lock = refl;
  b_exec = refl;
  hqc = refl;
  vheight = omega arith;
  logged = refl;
}

pub SameCore-trans : {s t u : HotStuffCore} → SameCore s t → SameCore t u → SameCore s u
SameCore-trans f g = record {
  frame = Frame-trans f.frame g.frame;
  b_lock = g.b_lock ∙ f.b_lock;
  b_exec = g.b_exec ∙ f.b_exec;
  hqc = g.hqc ∙ f.hqc;
  vheight = omega arith;
  logged = g.logged ∙ f.logged;
}

pub Advance-trans : {k l : ℕ} {s t u : HotStuffCore} → Advance k s t → Advance l t u → Advance l s u
Advance-trans f g = record { sound = g.sound; keeps = Keeps-trans f.keeps g.keeps }
