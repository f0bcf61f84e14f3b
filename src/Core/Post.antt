-- ===== src/Core/Post.antt =====
-- Postconditions of a method: `P` where it returns, `E` where it throws.
use archipelago_hotstuff.Core.State.{HotStuffCore, Error, Res, M, ok, throws, then_run}

pub data Post {A : Type 0} (P : A → HotStuffCore → Type 0) (E : Error → HotStuffCore → Type 0)
    : Res A → Type 0 where
  returns : {a : A} {s : HotStuffCore} → P a s → Post P E (ok a s)
  fails : {e : Error} {s : HotStuffCore} → E e s → Post P E (throws e s)

module _ {A : Type 0} {P : A → HotStuffCore → Type 0} {E : Error → HotStuffCore → Type 0} where
  pub bind :
      {B : Type 0} {Q : B → HotStuffCore → Type 0} {r : Res A} {f : A → M B}
      → Post P E r
      → ((a : A) (s : HotStuffCore) → P a s → Post Q E (f a s))
      → Post Q E (then_run r f)
  bind (returns p) next = next _ _ p
  bind (fails e) next = fails e

  pub mono :
      {Q : A → HotStuffCore → Type 0} {F : Error → HotStuffCore → Type 0} {r : Res A}
      → Post P E r
      → ((a : A) (s : HotStuffCore) → P a s → Q a s)
      → ((e : Error) (s : HotStuffCore) → E e s → F e s)
      → Post Q F r
  mono (returns p) weaken errors = returns (weaken _ _ p)
  mono (fails e) weaken errors = fails (errors _ _ e)

-- The postcondition at a known result.
abbrev pub Holds :
    {A : Type 0} (P : A → HotStuffCore → Type 0) (E : Error → HotStuffCore → Type 0)
    → Res A
    → Type 0
Holds P E (ok a s) = P a s
Holds P E (throws e s) = E e s

pub holds :
    {A : Type 0} {P : A → HotStuffCore → Type 0} {E : Error → HotStuffCore → Type 0} {r : Res A}
    → Post P E r
    → Holds P E r
holds (returns p) = p
holds (fails e) = e

pub post :
    {A : Type 0} {P : A → HotStuffCore → Type 0} {E : Error → HotStuffCore → Type 0} (r : Res A)
    → Holds P E r
    → Post P E r
post (ok a s) p = returns p
post (throws e s) p = fails p
