-- ===== src/Archipelago/Order.antt =====
-- The handlers of the ordering phase in hotstuff/examples/archipelago_app.cpp, and its batches.
use archipelago_hotstuff.Base.{
  ℕ, suc, ◌+◌, ◌-◌, ◌*◌, ◌%◌, ◌^◌, Option, none, some, List, [], ◌∷◌, ◌++◌, ltb, leb, ◌==◌,
  if◌then◌else◌, lookup, length, assign, nth, take, drop,
}
use archipelago_hotstuff.Archipelago.State.{
  Entry, Outcome, Replica, aborted, answer, done, exec_batch, ignore, undefined,
}

-- `client_request_cmd_handler`
unfoldable pub on_request : (cmd_hash addr : ℕ) → Replica → Replica
on_request h addr s = record s { cmd_pending = (h, answer addr) ∷ s.cmd_pending }

-- The new value of `batch_received[cmd_hash]`, an `int`: `none` is undefined behaviour.
unfoldable pub received_with : (cmd_hash : ℕ) → List (ℕ × ℕ) → Option ℕ
received_with h m = elim (lookup h m) [
  | none ↦ some 1
  | some n ↦ if ltb (n + 1) (2 ^ 31) then some (n + 1) else none
]

-- The rest of the handler, for the `n`-th request for the command.
unfoldable pub receive : (n cmd_hash addr : ℕ) → Replica → Replica
receive n h addr s =
    let t : Replica = record s { batch_received = assign h n s.batch_received } in
    if ltb n s.clnt_blk_size then t else record t { ordering1 = (h, addr) ∷ s.ordering1 }

-- `client_ordering1_request_cmd_handler`
unfoldable pub on_ordering1_request : (cmd_hash addr : ℕ) → Replica → Outcome
unfolding received_with receive
on_ordering1_request h addr s = elim (received_with h s.batch_received) [
  | none ↦ undefined
  | some n ↦ done (receive n h addr s)
]

-- `std::sort(commit_set.begin() + n, commit_set.end(), commit_set_cmp)`
unfoldable pub sort_from : (List Entry → List Entry) → ℕ → List Entry → Option (List Entry)
sort_from sort n es = if leb n (length es) then some (take n es ++ sort (drop n es)) else none

-- The rounds of the loop that looks for the end of a batch, over the entries that are left.
unfoldable pub count_until : (batch_end_timestamp : ℕ) → List Entry → ℕ
count_until limit [] = 0
count_until limit (e ∷ es) =
    let rest = count_until limit es in if ltb limit e.timestamp then 0 else suc rest

unfoldable pub next_stable_point_idx : (batch_end_timestamp idx : ℕ) → List Entry → ℕ
unfolding count_until
next_stable_point_idx limit idx es =
    idx + count_until limit (drop idx (take (length es % 2 ^ 32) es))

-- `commit_set[commit_set_size - 1].first.second - stable_period * 1000`, in 64 bits.
abbrev pub batch_end : Replica → Entry → ℕ
batch_end s last = (last.timestamp + 2 ^ 64 - (s.stable_period * 1000) % 2 ^ 32) % 2 ^ 64

-- The hash of the `i`-th command of a batch, `CommandDummy(i, cmd_cnt++)`.
abbrev pub cmd_of : (digest : ℕ → ℕ → ℕ) → Replica → ℕ → ℕ
cmd_of digest s i = digest i ((s.cmd_cnt + i) % 2 ^ 32)

-- A new batch of the sorted commit set: its request to the replicas, and its commands to decide.
unfoldable pub start_batch :
    (digest : ℕ → ℕ → ℕ) → (batch_end_timestamp : ℕ) → List Entry → Replica → Replica
unfolding next_stable_point_idx
start_batch digest limit es s =
    let end_idx = next_stable_point_idx limit s.stable_point_idx es in
    record s {
      cmd_cnt = (s.cmd_cnt + 5) % 2 ^ 32;
      commit_set = es;
      stable_point_idx = end_idx;
      multicast =
          record {
            commit_set_hash = cmd_of digest s 4;
            stable_timestamp = limit;
            stable_idx = end_idx;
            place_holder1 = cmd_of digest s 0;
            place_holder2 = cmd_of digest s 1;
            place_holder3 = cmd_of digest s 2;
            place_holder4 = cmd_of digest s 3;
          }
          ∷ s.multicast;
      exec_client_rsp = assign (cmd_of digest s 4) (s.stable_point_idx, end_idx) s.exec_client_rsp;
      exec_sent = end_idx;
      cmd_pending =
          (cmd_of digest s 3, ignore)
          ∷ (cmd_of digest s 2, ignore)
          ∷ (cmd_of digest s 1, ignore)
          ∷ (cmd_of digest s 4, exec_batch (cmd_of digest s 4))
          ∷ s.cmd_pending;
    }

unfoldable pub cut_batch : (digest : ℕ → ℕ → ℕ) → (List Entry → List Entry) → Replica → Outcome
unfolding sort_from start_batch
cut_batch digest sort s = elim (sort_from sort s.stable_point_idx s.commit_set) [
  | none ↦ undefined
  | some es ↦ elim (nth es ((length es % 2 ^ 32 + 2 ^ 32 - 1) % 2 ^ 32)) [
    | none ↦ undefined
    | some last ↦ done (start_batch digest (batch_end s last) es s)
  ]
]

-- The leader's part of `client_ordering2_request_cmd_handler`, at the time `now`.
unfoldable pub tick :
    (digest : ℕ → ℕ → ℕ) → (List Entry → List Entry) → (now : ℕ) → Replica → Outcome
unfolding cut_batch
tick digest sort now s =
    if s.exec_last_batch_clock == 0
    then done (record s { exec_last_batch_clock = now })
    else if ltb ((s.exec_last_batch_clock + (s.stable_period * 1000) % 2 ^ 32) % 2 ^ 64) now
    then cut_batch digest sort (record s { exec_last_batch_clock = now })
    else done s

-- `client_ordering2_request_cmd_handler`
unfoldable pub on_ordering2_request :
    (digest : ℕ → ℕ → ℕ) → (List Entry → List Entry) → (now : ℕ) → Entry → Replica → Outcome
unfolding tick
on_ordering2_request digest sort now e s =
    if ltb e.timestamp s.stable_point
    then aborted
    else let t : Replica = record s {
      commit_set = s.commit_set ++ e ∷ [];
      ordering2 = (e.cmd_hash, e.addr) ∷ s.ordering2;
    } in
      if s.id == 1 then tick digest sort now t else done t
