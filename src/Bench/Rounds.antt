-- ===== src/Bench/Rounds.antt =====
-- A request is done with the answers of `nfaulty + 1` replicas, and not before.
use archipelago_hotstuff.Base.{
  ◌^◌, ◌≢◌, Unique, lookup-remove, lookup-remove_other, ℕ, zero, suc, ◌+◌, ◌≤◌, ◌<◌, ◌≡◌, refl, sym,
  ap, ◌∙◌, subst, true, false, Option, none, some, ◌∷◌, leb, arith, lookup, remove, write,
  lookup-write, write-write, write-same, remove-write,
}
use archipelago_hotstuff.Bench.{Bencher, send_new_all, on_answer, on_answers}
use archipelago_hotstuff.Bench.Filling.{IsFresh, IsInjective, Filled, send_new_all-Filled}

-- The request has `n` answers.
abbrev pub counted : (cmd_hash n : ℕ) → Bencher → Bencher
counted h n c = record c { waiting = write h n c.waiting }

-- The request is done.
abbrev pub completed : (cmd_hash : ℕ) → Bencher → Bencher
completed h c = record c { waiting = remove h c.waiting; elapsed = h ∷ c.elapsed }

module _ (digest : ℕ → ℕ → ℕ) (h : ℕ) where
  few-on_answer :
      (confirmed : ℕ) (c : Bencher)
      → lookup h c.waiting ≡ some confirmed
      → confirmed + 1 ≤ c.nfaulty
      → on_answer digest h c ≡ some (counted h (confirmed + 1) c)
  unfolding on_answer
  few-on_answer confirmed c e fits =
      let y : leb (confirmed + 1) c.nfaulty ≡ true = ground arith in rw (e, on_answer, y) refl

  enough-on_answer :
      (confirmed : ℕ) (c : Bencher)
      → lookup h c.waiting ≡ some confirmed
      → c.nfaulty < confirmed + 1
      → on_answer digest h c ≡ send_new_all digest (completed h c)
  unfolding on_answer
  enough-on_answer confirmed c e fits =
      let y : leb (confirmed + 1) c.nfaulty ≡ false = ground arith in rw (e, on_answer, y) refl

  on_answers-counts :
      (n confirmed : ℕ) (c : Bencher)
      → lookup h c.waiting ≡ some confirmed
      → confirmed + n ≤ c.nfaulty
      → on_answers digest h n c ≡ some (counted h (confirmed + n) c)
  unfolding on_answers
  on_answers-counts zero confirmed c e fits =
      let same : confirmed + 0 ≡ confirmed = omega arith in
      let kept : c.waiting ≡ write h (confirmed + 0) c.waiting =
        sym (write-same h confirmed c.waiting e) ∙ ap (λ k. write h k c.waiting) (sym same) in
      ap (λ m. some (record c { waiting = m })) kept
  on_answers-counts (suc n) confirmed c e fits =
      let d = counted h (confirmed + 1) c in
      let f = few-on_answer confirmed c e (omega arith) in
      let g =
        on_answers-counts n (confirmed + 1) d (lookup-write h (confirmed + 1) confirmed c.waiting e)
          (omega arith) in
      let same : confirmed + 1 + n ≡ confirmed + suc n = omega arith in
      rw (f, on_answers)
        (g
          ∙ ap (λ m. some (record c { waiting = m }))
              (write-write h (confirmed + 1 + n) (confirmed + 1) c.waiting
                ∙ ap (λ k. write h k c.waiting) same))

  last_only :
      (o : Option Bencher) → (elim o as (λ _. Option Bencher) [ none ↦ none | some d ↦ some d ]) ≡ o
  last_only none = refl
  last_only (some d) = refl

  on_answers-completes :
      (n confirmed : ℕ) (c : Bencher)
      → lookup h c.waiting ≡ some confirmed
      → confirmed + n ≡ c.nfaulty
      → on_answers digest h (suc n) c ≡ send_new_all digest (completed h c)
  unfolding on_answers
  on_answers-completes zero confirmed c e fits =
      let f = enough-on_answer confirmed c e (omega arith) in
      rw (f, on_answers) (last_only (send_new_all digest (completed h c)))
  on_answers-completes (suc n) confirmed c e fits =
      let d = counted h (confirmed + 1) c in
      let f = few-on_answer confirmed c e (omega arith) in
      let g =
        on_answers-completes n (confirmed + 1) d
          (lookup-write h (confirmed + 1) confirmed c.waiting e) (omega arith) in
      rw (f, on_answers)
        (g
          ∙ ap (λ m. send_new_all digest (record c { waiting = m; elapsed = h ∷ c.elapsed }))
              (remove-write h (confirmed + 1) c.waiting))

completed-IsFresh :
    (digest : ℕ → ℕ → ℕ) (h : ℕ) (c : Bencher)
    → lookup h c.waiting ≡ some 0
    → IsFresh digest c
    → ((i : ℕ) → c.cnt + i < 2 ^ 32 → digest c.cid (c.cnt + i) ≢ h) × IsFresh digest (completed h c)
completed-IsFresh digest h c e fresh = (
  (λ i lt x. let y : none ≡ some 0 = sym (fresh i lt) ∙ ap (λ k. lookup k c.waiting) x ∙ e in cc),
  (λ i lt.
      lookup-remove_other h (digest c.cid (c.cnt + i)) c.waiting (λ x.
        let y : none ≡ some 0 = sym (fresh i lt) ∙ ap (λ k. lookup k c.waiting) (sym x) ∙ e in cc)
      ∙ fresh i lt),
)

-- With different commands hashed differently, none of the commands to come waiting and the counter
-- short of its end, up to nfaulty answers to a request that waits for its first are counted and
-- send nothing; with the next one the request is done and waits no longer, and the client sends new
-- commands to every replica, each one counted and waiting, until as many requests wait as may, or
-- none is left to send.
pub on_answers-completed :
    (digest : ℕ → ℕ → ℕ) (h : ℕ) (c : Bencher)
    → IsInjective digest
    → IsFresh digest c
    → Unique c.waiting
    → c.cnt + c.max_async_num + 1 < 2 ^ 32
    → lookup h c.waiting ≡ some 0
    → ((n : ℕ) → n ≤ c.nfaulty → on_answers digest h n c ≡ some (counted h n c))
      × ((t : Bencher) × (on_answers digest h (suc c.nfaulty) c ≡ some t)
          × Filled digest (completed h c) t
          × (lookup h t.waiting ≡ none))
on_answers-completed digest h c inj fresh u fits e =
    let (other, fresh') = completed-IsFresh digest h c e fresh in
    let (t, ends, f) = send_new_all-Filled digest inj (completed h c) fresh' fits in
    (
      (λ n few.
          let same : 0 + n ≡ n = omega arith in
          subst (λ k. on_answers digest h n c ≡ some (counted h k c)) same
            (on_answers-counts digest h n 0 c e (omega (arith, few)))),
      (
        t,
        on_answers-completes digest h c.nfaulty 0 c e (omega arith) ∙ ends,
        f,
        f.others h other ∙ lookup-remove h c.waiting u,
      ),
    )
