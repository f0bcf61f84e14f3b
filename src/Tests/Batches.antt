-- ===== src/Tests/Batches.antt =====
-- The theorems on the batches of Archipelago at concrete inputs: a leader that has cut one batch and
-- is about to cut another one.
use archipelago_hotstuff.Base.{
  ℕ, ◌+◌, ◌-◌, ◌*◌, ◌≤◌, ◌≡◌, refl, Bool-cases, inl, inr, if◌then◌else◌, some, List, [], ◌∷◌, arith,
  leb, length, lookup, lookup-here, assign, nth, drop, All, Permᴰ,
}
use mathlib.Core.List.Permᴰ as Permᴰ
use archipelago_hotstuff.Archipelago.State.{Entry, Replica, Consensus, done, undefined}
use archipelago_hotstuff.Archipelago.Order.{cut_batch, batch_end, on_ordering2_request, on_request}
use archipelago_hotstuff.Archipelago.Execute.{on_executed}
use archipelago_hotstuff.Archipelago.Check.{check_stable_point_index}
use archipelago_hotstuff.Archipelago.Sort.{IsSort, InOrder}
use archipelago_hotstuff.Archipelago.Batch.{CutsBatch, cut_batch-CutsBatch}
use archipelago_hotstuff.Archipelago.Leader.{
  Archived, ExtendsPrefix, Orders, NoCollision, on_ordering2_request-Orders,
}
use archipelago_hotstuff.Archipelago.History.{
  Steps, start, request, Steps-Archived, on_executed-Steps, tell_all, slice,
}
use archipelago_hotstuff.Archipelago.Follower.{
  Checks, check_stable_point_index-Checks, check_stable_point_index-past,
  check_stable_point_index-CutsBatch,
}
use archipelago_hotstuff.Archipelago.Requests.{
  count_of, request_all, enqueue_all, request_all-enqueue_all,
}

-- A sort by insertion.
abbrev insert_entry : Entry → List Entry → List Entry
insert_entry e [] = e ∷ []
insert_entry e (d ∷ es) = if leb e.timestamp d.timestamp then e ∷ d ∷ es else d ∷ insert_entry e es

abbrev sort_entries : List Entry → List Entry
sort_entries [] = []
sort_entries (e ∷ es) = insert_entry e (sort_entries es)

insert_entry-Perm : (e : Entry) (es : List Entry) → Permᴰ (e ∷ es) (insert_entry e es)
insert_entry-Perm e [] = Permᴰ.refl (e ∷ [])
insert_entry-Perm e (d ∷ es) = elim (Bool-cases (leb e.timestamp d.timestamp)) [
  | inl y ↦ rw y (Permᴰ.refl (e ∷ d ∷ es))
  | inr n ↦ rw n (Permᴰ.trans (Permᴰ.swap refl refl) (Permᴰ.cons refl (insert_entry-Perm e es)))
]

sort_entries-Perm : (es : List Entry) → Permᴰ es (sort_entries es)
sort_entries-Perm [] = Permᴰ.nil
sort_entries-Perm (e ∷ es) =
    Permᴰ.trans (Permᴰ.cons refl (sort_entries-Perm es)) (insert_entry-Perm e (sort_entries es))

All-insert_entry :
    (low : ℕ) (e : Entry) (es : List Entry)
    → low ≤ e.timestamp
    → All (λ d. low ≤ d.timestamp) es
    → All (λ d. low ≤ d.timestamp) (insert_entry e es)
All-insert_entry low e [] h a = (h, tt)
All-insert_entry low e (d ∷ es) h (b, a) = elim (Bool-cases (leb e.timestamp d.timestamp)) [
  | inl y ↦ rw y (h, (b, a))
  | inr n ↦ rw n (b, All-insert_entry low e es h a)
]

All-higher :
    (a b : ℕ) (es : List Entry)
    → a ≤ b
    → All (λ d. b ≤ d.timestamp) es
    → All (λ d. a ≤ d.timestamp) es
All-higher a b [] h all = tt
All-higher a b (e ∷ es) h (x, all) = (omega (arith, x, h), All-higher a b es h all)

insert_entry-InOrder : (e : Entry) (es : List Entry) → InOrder es → InOrder (insert_entry e es)
insert_entry-InOrder e [] o = (tt, tt)
insert_entry-InOrder e (d ∷ es) (first, o) = elim (Bool-cases (leb e.timestamp d.timestamp)) [
  | inl y ↦
      let le : e.timestamp ≤ d.timestamp = ground (arith, y) in
      rw y ((le, All-higher e.timestamp d.timestamp es le first), (first, o))
  | inr n ↦
      rw n
        (All-insert_entry d.timestamp e es (ground (arith, n)) first, insert_entry-InOrder e es o)
]

sort_entries-InOrder : (es : List Entry) → InOrder (sort_entries es)
sort_entries-InOrder [] = tt
sort_entries-InOrder (e ∷ es) = insert_entry-InOrder e (sort_entries es) (sort_entries-InOrder es)

sorts : IsSort sort_entries
sorts = record { permutes = sort_entries-Perm; orders = sort_entries-InOrder }

abbrev command_hash : ℕ → ℕ → ℕ
command_hash cid n = cid + 5 * n

apart : NoCollision command_hash
apart a b e = omega (arith, e)

abbrev entry : ℕ → ℕ → ℕ → Entry
entry h ts addr = record { cmd_hash = h; timestamp = ts; addr = addr }

-- A replica with one batch, at the indices 0 and 1, whose hash is that of command 4 of cid 4.
abbrev replica_of :
    (id stable_point_idx cmd_cnt : ℕ) → List Entry → List (ℕ × (ℕ × ℕ)) → List Consensus → Replica
replica_of id idx cnt es batches sent = record {
  id = id;
  stable_period = 1;
  clnt_blk_size = 2;
  cmd_cnt = cnt;
  exec_count = 0;
  exec_sent = idx;
  exec_last_batch_clock = 7000;
  batch_received = [];
  exec_client_rsp = batches;
  stable_point = 0;
  stable_point_idx = idx;
  commit_set = es;
  stable_point_errors = [];
  leader_propose = [];
  cmd_pending = [];
  ordering1 = [];
  ordering2 = [];
  multicast = sent;
  client_replies = [];
}

abbrev leader : Replica
leader =
    replica_of 1 2 5
      (entry 100 1000 1 ∷ entry 101 1500 2 ∷ entry 103 9000 2 ∷ entry 102 5000 1 ∷ [])
      ((24, (0, 2)) ∷ []) []

leader-Archived : Archived command_hash leader
leader-Archived = record {
  point = refl;
  within = omega arith;
  batches = (refl, omega arith, refl);
  keys = ((4, omega arith, refl), tt);
}

cut_batch-CutsBatch_example :
    (last : Entry) × (t : Replica) × (cut_batch command_hash sort_entries leader ≡ done t)
    × (nth t.commit_set (length t.commit_set - 1) ≡ some last)
    × CutsBatch command_hash (batch_end leader last) leader t
cut_batch-CutsBatch_example =
    cut_batch-CutsBatch command_hash sort_entries sorts leader (omega arith) (omega arith)
      (omega arith)

on_ordering2_request-Orders_example :
    (t : Replica) × (on_ordering2_request command_hash sort_entries 9000 (entry 104 9500 1) leader
      ≡ done t)
    × Orders command_hash apart (entry 104 9500 1) leader t
on_ordering2_request-Orders_example =
    on_ordering2_request-Orders command_hash apart sort_entries sorts 9000 (entry 104 9500 1) leader
      leader-Archived (omega arith) (omega arith)

asked : Steps command_hash sort_entries leader (on_request 500 9 leader)
asked = request 500 9 start

Steps-Archived_example :
    Archived command_hash (on_request 500 9 leader) × ExtendsPrefix leader (on_request 500 9 leader)
Steps-Archived_example =
    Steps-Archived command_hash sort_entries sorts apart leader leader-Archived asked

on_executed-Steps_example :
    (u : Replica) × (on_executed 24 (on_request 500 9 leader) ≡ done u)
    × (u.client_replies
        ≡ tell_all (slice 0 2 leader.commit_set) (on_request 500 9 leader).client_replies)
    × (2 ≤ u.exec_count)
on_executed-Steps_example =
    on_executed-Steps command_hash sort_entries sorts apart 24 0 2 leader (on_request 500 9 leader)
      leader-Archived (lookup-here 24 (0, 2) []) asked

-- The leader behind its second batch, and a replica with the same commands in another order.
abbrev cut_leader : Replica
cut_leader =
    replica_of 1 3 10
      (entry 100 1000 1 ∷ entry 101 1500 2 ∷ entry 102 5000 1 ∷ entry 103 9000 2 ∷ [])
      ((49, (2, 3)) ∷ (24, (0, 2)) ∷ [])
      (record {
        commit_set_hash = 49;
        stable_timestamp = 8000;
        stable_idx = 3;
        place_holder1 = 25;
        place_holder2 = 31;
        place_holder3 = 37;
        place_holder4 = 43;
      }
        ∷ [])

abbrev follower : Replica
follower =
    replica_of 2 2 0
      (entry 101 1500 2 ∷ entry 100 1000 1 ∷ entry 102 5000 1 ∷ entry 103 9000 2 ∷ []) [] []

leader-CutsBatch : CutsBatch command_hash 8000 leader cut_leader
unfolding lookup assign
leader-CutsBatch = record {
  grows = omega arith;
  within = omega arith;
  kept = refl;
  same = Permᴰ.swap refl refl;
  batch = (omega arith, tt);
  rest = (omega arith, tt);
  ordered = ((omega arith, tt), (tt, tt));
  sends = (_, refl, refl, refl, refl);
  remembers = refl;
  leaves = (refl, refl, refl);
}

check_stable_point_index-Checks_example :
    (t : Replica) × (check_stable_point_index sort_entries 8000 3 follower ≡ done t)
    × Checks 8000 3 follower t
check_stable_point_index-Checks_example =
    check_stable_point_index-Checks sort_entries sorts 8000 3 follower (omega arith) (omega arith)
      (omega arith)

check_stable_point_index-past_example :
    (t : Replica) × (check_stable_point_index sort_entries 8000 5 follower ≡ done t)
    × (check_stable_point_index sort_entries 9000 6 t ≡ undefined)
check_stable_point_index-past_example =
    check_stable_point_index-past sort_entries sorts 8000 5 9000 6 follower (omega arith)
      (omega arith) (omega arith) (omega arith)

check_stable_point_index-CutsBatch_example :
    (u : Replica) × (check_stable_point_index sort_entries 8000 3 follower ≡ done u)
    × (u.stable_point_errors ≡ [])
    × (u.stable_point_idx ≡ 3)
    × Permᴰ (drop 2 u.commit_set) (drop 2 cut_leader.commit_set)
check_stable_point_index-CutsBatch_example =
    check_stable_point_index-CutsBatch sort_entries sorts command_hash 8000 leader cut_leader
      follower leader-CutsBatch (omega arith) (omega arith) refl (omega arith) (omega arith)
      (Permᴰ.swap refl refl)

request_all-enqueue_all_example :
    (t : Replica) × (request_all 300 (1 ∷ 2 ∷ 3 ∷ []) leader ≡ done t)
    × (t.ordering1 ≡ enqueue_all 300 (drop 1 (1 ∷ 2 ∷ 3 ∷ [])) [])
    × (count_of 300 t ≡ 3)
unfolding lookup
request_all-enqueue_all_example = request_all-enqueue_all 300 (1 ∷ 2 ∷ 3 ∷ []) leader (omega arith)
