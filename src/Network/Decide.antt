-- ===== src/Network/Decide.antt =====
-- The callbacks of commands: `decision_waiting` from the queue to `do_decide`.
use archipelago_hotstuff.Base.{
  ℕ, ◌+◌, ◌%◌, ◌^◌, ◌≡◌, ◌≢◌, refl, sym, ◌∙◌, subst, none, some, List, [], ◌∷◌, ◌++◌, leb, ◌==◌,
  Bool-cases, Option-cases, inl, inr, length, lookup, lookup-other, remove, Unique, lookup-remove,
  lookup-remove_other, Unique-remove,
}
use archipelago_hotstuff.Core.State.{Finality}
use archipelago_hotstuff.Network.{Commands, wait_decision, drain, on_cmd_pending, do_decide}

-- `t` has the waiting callbacks of `s`, each command with one callback.
pub record Keeps (s t : Commands) : Type 0 where
  pub unique : Unique t.decision_waiting
  pub waits :
      (h cb : ℕ) → lookup h s.decision_waiting ≡ some cb → lookup h t.decision_waiting ≡ some cb

wait-Keeps : (h cb : ℕ) (s : Commands) → Unique s.decision_waiting → Keeps s (wait_decision h cb s)
unfolding wait_decision
wait-Keeps h cb s u = elim (Option-cases (lookup h s.decision_waiting)) [
  | inr (v, e) ↦ rw (e, wait_decision) (record { unique = u; waits = λ k c f. f })
  | inl e ↦
      rw (e, wait_decision)
        (record {
          unique = (e, u);
          waits = λ k c f.
              let ne : h ≢ k =
                λ x. let g = subst (λ j. lookup j s.decision_waiting ≡ none) x e in cc in
              lookup-other h k cb s.decision_waiting ne ∙ f;
        })
]

Keeps-trans : (s t u : Commands) → Keeps s t → Keeps t u → Keeps s u
Keeps-trans s t u x y = record {
  unique = y.unique;
  waits = λ h cb f. y.waits h cb (x.waits h cb f);
}

drain-Keeps :
    (p : ℕ) (q : List (ℕ × ℕ)) (s : Commands) → Unique s.decision_waiting → Keeps s (drain p q s).0
unfolding drain
drain-Keeps p [] s u = record { unique = u; waits = λ h cb f. f }
drain-Keeps p ((h, cb) ∷ q) s u =
    let t = wait_decision h cb s in
    let pushed : Commands = record t { cmd_pending_buffer = t.cmd_pending_buffer ++ h ∷ [] } in
    let k = wait-Keeps h cb s u in
    elim (Bool-cases (p == s.id)) [
      | inr other ↦ rw other (Keeps-trans s t (drain p q t).0 k (drain-Keeps p q t k.unique))
      | inl leads ↦ elim (Bool-cases (leb s.blk_size (length pushed.cmd_pending_buffer))) [
        | inl full ↦ rw (leads, full) (record { unique = k.unique; waits = k.waits })
        | inr room ↦
            let r = drain-Keeps p q pushed k.unique in
            rw (leads, room)
              (record { unique = r.unique; waits = λ g c f. r.waits g c (k.waits g c f) })
      ]
    ]

-- Whoever proposes, the queue handler keeps the callbacks that wait, and one for each command.
pub on_cmd_pending-Keeps :
    (proposer : ℕ) (s : Commands)
    → Unique s.decision_waiting
    → Keeps s (on_cmd_pending proposer s).0
unfolding on_cmd_pending
on_cmd_pending-Keeps proposer s u = drain-Keeps proposer s.cmd_pending s u

none-do_decide :
    (fin : Finality) (s : Commands)
    → lookup fin.cmd_hash s.decision_waiting ≡ none
    → ((do_decide fin s).called ≡ s.called) × ((do_decide fin s).executed ≡ fin ∷ s.executed)
unfolding do_decide
none-do_decide fin s e = rw (e, do_decide) (refl, refl)

-- A decided command is executed, and the callback that waits for it is called with the decision. It
-- is called once: a second decision on the command is executed, and calls nothing. Every other
-- command waits as before.
pub do_decide-once :
    (fin again : Finality) (cb : ℕ) (s : Commands)
    → Unique s.decision_waiting
    → lookup fin.cmd_hash s.decision_waiting ≡ some cb
    → again.cmd_hash ≡ fin.cmd_hash
    → let t = do_decide fin s in
      (t.called ≡ (cb, fin) ∷ s.called)
      × (t.executed ≡ fin ∷ s.executed)
      × Unique t.decision_waiting
      × ((do_decide again t).called ≡ t.called)
      × ((do_decide again t).executed ≡ again ∷ t.executed)
      × ((h : ℕ) → fin.cmd_hash ≢ h → lookup h t.decision_waiting ≡ lookup h s.decision_waiting)
unfolding do_decide
do_decide-once fin again cb s u found same =
    let h = fin.cmd_hash in
    let t : Commands = record s {
      part_decided = (s.part_decided + 1) % 2 ^ 32;
      executed = fin ∷ s.executed;
      called = (cb, fin) ∷ s.called;
      decision_waiting = remove h s.decision_waiting;
    } in
    let none_left = lookup-remove h s.decision_waiting u in
    let e : do_decide fin s ≡ t = rw (found, do_decide) refl in
    let second =
      none-do_decide again t
        (subst (λ k. lookup k t.decision_waiting ≡ none) (sym same) none_left) in
    subst
      (λ r.
        (r.called ≡ (cb, fin) ∷ s.called)
        × (r.executed ≡ fin ∷ s.executed)
        × Unique r.decision_waiting
        × ((do_decide again r).called ≡ r.called)
        × ((do_decide again r).executed ≡ again ∷ r.executed)
        × ((k : ℕ) → h ≢ k → lookup k r.decision_waiting ≡ lookup k s.decision_waiting))
      (sym e)
      (
        refl,
        refl,
        Unique-remove h s.decision_waiting u,
        second.0,
        second.1,
        λ k ne. lookup-remove_other h k s.decision_waiting ne,
      )
