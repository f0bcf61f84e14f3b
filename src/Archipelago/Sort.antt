-- ===== src/Archipelago/Sort.antt =====
-- What the code relies on in std::sort.
use archipelago_hotstuff.Base.{◌≤◌, List, [], ◌∷◌, All, Permᴰ}
use archipelago_hotstuff.Archipelago.State.{Entry}

-- The order of the entries: `commit_set_cmp`, non-strict.
abbrev pub InOrder : List Entry → Type 0
InOrder [] = Unit
InOrder (e ∷ es) = All (λ d. e.timestamp ≤ d.timestamp) es × InOrder es

-- What the code relies on in `std::sort`.
pub record IsSort (sort : List Entry → List Entry) : Type 0 where
  pub permutes : (es : List Entry) → Permᴰ es (sort es)
  pub orders : (es : List Entry) → InOrder (sort es)
