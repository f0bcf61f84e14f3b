-- ===== src/Tests/Benches.antt =====
-- The theorems on the client of the plain protocol at concrete inputs.
use archipelago_hotstuff.Base.{arith, none, ℕ, ◌+◌, ◌*◌, ◌≤◌, ◌≡◌, refl, some, [], ◌∷◌, lookup}
use archipelago_hotstuff.Bench.{Bencher, on_answers}
use archipelago_hotstuff.Bench.Filling.{Filled}
use archipelago_hotstuff.Bench.Rounds.{counted, completed, on_answers-completed}

-- A client of four replicas that waits for the command 30.
abbrev waiting_one : Bencher
waiting_one = record {
  max_async_num = 2;
  max_iter_num = some 5;
  cid = 3;
  cnt = 1;
  nfaulty = 1;
  conns = 0 ∷ 1 ∷ 2 ∷ 3 ∷ [];
  waiting = (30, 0) ∷ [];
  commands = [];
  elapsed = [];
}

abbrev digest : ℕ → ℕ → ℕ
digest cid n = 10 * cid + n

on_answers-completed_example :
    ((n : ℕ) → n ≤ 1 → on_answers digest 30 n waiting_one ≡ some (counted 30 n waiting_one))
    × ((t : Bencher) × (on_answers digest 30 2 waiting_one ≡ some t)
        × Filled digest (completed 30 waiting_one) t
        × (lookup 30 t.waiting ≡ none))
unfolding lookup
on_answers-completed_example =
    on_answers-completed digest 30 waiting_one (λ cid a b e. omega (arith, e))
      (λ i lt. ground arith) (refl, tt) (omega arith) refl
