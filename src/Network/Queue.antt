-- ===== src/Network/Queue.antt =====
-- The handler of the queue of commands.
use archipelago_hotstuff.Base.{
  ℕ, ◌≤◌, ◌<◌, ◌≡◌, refl, sym, ap, ◌∙◌, Bool, true, false, List, [], ◌∷◌, ◌++◌, arith, leb, ◌==◌,
  ==_iff, Bool-cases, inl, inr, length, length-append, map, take, drop, take-all, drop-all,
  length-take, lookup, Option-cases,
}
use mathlib.Core.List.{append_assoc, append-nil}
use archipelago_hotstuff.Network.{Commands, wait_decision, drain, on_cmd_pending}

abbrev pub hash_of : ℕ × ℕ → ℕ
hash_of e = e.0

-- How the handler ends on the entries `q`, at the proposer: `false` with all entries in the buffer, or
-- `true` with a full block behind which the entries are left. The commands keep their order.
pub data Drained (q : List (ℕ × ℕ)) (s t : Commands) : Bool → Type 0 where
  emptied :
      t.beats ≡ s.beats
      → t.cmd_pending ≡ []
      → t.cmd_pending_buffer ≡ s.cmd_pending_buffer ++ map hash_of q
      → length t.cmd_pending_buffer < s.blk_size
      → Drained q s t false
  filled :
      (cmds : List ℕ)
      → t.beats ≡ cmds ∷ s.beats
      → length cmds ≡ s.blk_size
      → t.cmd_pending_buffer ≡ []
      → s.cmd_pending_buffer ++ map hash_of q ≡ cmds ++ map hash_of t.cmd_pending
      → Drained q s t true

-- What a wait leaves alone.
wait-same :
    (h cb : ℕ) (s : Commands)
    → ((wait_decision h cb s).beats ≡ s.beats)
      × ((wait_decision h cb s).cmd_pending_buffer ≡ s.cmd_pending_buffer)
      × ((wait_decision h cb s).id ≡ s.id)
      × ((wait_decision h cb s).blk_size ≡ s.blk_size)
unfolding wait_decision
wait-same h cb s = elim (Option-cases (lookup h s.decision_waiting)) [
  | inl e ↦ rw (e, wait_decision) (refl, refl, refl, refl)
  | inr (v, e) ↦ rw (e, wait_decision) (refl, refl, refl, refl)
]

-- A command that went to the buffer, with the rest of the queue behind it.
push-Drained :
    (h cb : ℕ) (q : List (ℕ × ℕ)) (s t u : Commands) (more : Bool)
    → t.beats ≡ s.beats
    → t.cmd_pending_buffer ≡ s.cmd_pending_buffer ++ h ∷ []
    → t.blk_size ≡ s.blk_size
    → Drained q t u more
    → Drained ((h, cb) ∷ q) s u more
push-Drained h cb q s t u false beats buffer blks (emptied b p all short) =
    emptied (b ∙ beats) p
      (all
        ∙ ap (λ xs. xs ++ map hash_of q) buffer
        ∙ append_assoc s.cmd_pending_buffer (h ∷ []) (map hash_of q))
      (omega (arith, short, blks))
push-Drained h cb q s t u true beats buffer blks (filled cmds b full none_left all) =
    filled cmds (b ∙ ap (λ xs. cmds ∷ xs) beats) (full ∙ blks) none_left (
      sym (append_assoc s.cmd_pending_buffer (h ∷ []) (map hash_of q))
      ∙ ap (λ xs. xs ++ map hash_of q) (sym buffer)
      ∙ all)

-- The round that fills a block.
full-Drained :
    (h cb : ℕ) (q : List (ℕ × ℕ)) (s t : Commands)
    → length s.cmd_pending_buffer < s.blk_size
    → s.blk_size ≤ length (s.cmd_pending_buffer ++ h ∷ [])
    → t.beats ≡ take s.blk_size (s.cmd_pending_buffer ++ h ∷ []) ∷ s.beats
    → t.cmd_pending ≡ q
    → t.cmd_pending_buffer ≡ drop s.blk_size (s.cmd_pending_buffer ++ h ∷ [])
    → Drained ((h, cb) ∷ q) s t true
full-Drained h cb q s t short full beats left buffer =
    let xs = s.cmd_pending_buffer ++ h ∷ [] in
    let n : length xs ≤ s.blk_size =
      omega (arith, length-append s.cmd_pending_buffer (h ∷ []), short) in
    let all = take-all s.blk_size xs n in
    filled (take s.blk_size xs) beats (length-take s.blk_size xs full)
      (buffer ∙ drop-all s.blk_size xs n)
      (sym (append_assoc s.cmd_pending_buffer (h ∷ []) (map hash_of q))
        ∙ ap (λ ys. ys ++ map hash_of q) (sym all)
        ∙ ap (λ es. take s.blk_size xs ++ map hash_of es) (sym left))

drain_on-Drained :
    (p : ℕ) (q : List (ℕ × ℕ)) (s : Commands)
    → p ≡ s.id
    → length s.cmd_pending_buffer < s.blk_size
    → Drained q s (drain p q s).0 (drain p q s).1
unfolding drain
drain_on-Drained p [] s own short = emptied refl refl (sym (append-nil s.cmd_pending_buffer)) short
drain_on-Drained p ((h, cb) ∷ q) s own short =
    let (beats, buffer, ids, blks) = wait-same h cb s in
    let t = wait_decision h cb s in
    let pushed : Commands = record t { cmd_pending_buffer = t.cmd_pending_buffer ++ h ∷ [] } in
    let same = ap (λ xs. xs ++ h ∷ []) buffer in
    let size = ap length same in
    let leads : (p == s.id) ≡ true = (==_iff p s.id).1 own in
    elim (Bool-cases (leb s.blk_size (length pushed.cmd_pending_buffer))) [
      | inl full ↦
          rw (leads, full)
            (full-Drained h cb q s _ short (ground (arith, full, size))
              (ap (λ xs. take s.blk_size xs ∷ t.beats) same
                ∙ ap (λ bs. take s.blk_size (s.cmd_pending_buffer ++ h ∷ []) ∷ bs) beats)
              refl (ap (drop s.blk_size) same))
      | inr room ↦
          let less : length pushed.cmd_pending_buffer < pushed.blk_size =
            ground (arith, room, blks) in
          rw (leads, room)
            (push-Drained h cb q s pushed _ _ beats same blks
              (drain_on-Drained p q pushed (own ∙ sym ids) less))
    ]

-- The queue handler of the proposer, whose buffer is short of a block, gives the pace maker a full
-- block or empties the queue: no command is lost, doubled or moved before another one.
pub on_cmd_pending-Drained :
    (s : Commands)
    → length s.cmd_pending_buffer < s.blk_size
    → Drained s.cmd_pending s (on_cmd_pending s.id s).0 (on_cmd_pending s.id s).1
unfolding on_cmd_pending
on_cmd_pending-Drained s short = drain_on-Drained s.id s.cmd_pending s refl short
