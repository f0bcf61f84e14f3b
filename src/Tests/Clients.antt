-- ===== src/Tests/Clients.antt =====
-- The theorems on the client at concrete inputs: four replicas, one of which may be faulty.
use archipelago_hotstuff.Base.{
  ℕ, ◌+◌, ◌≤◌, ◌<◌, ◌≡◌, refl, none, some, [], ◌∷◌, ◌++◌, arith, lookup, count_le, count_ge, nth,
  sort,
}
use archipelago_hotstuff.Client.{Client, Request, pick_timestamp, send_while, on_ordering1}
use archipelago_hotstuff.Client.Median.{pick_timestamp-rank, pick_timestamp-faulty}
use archipelago_hotstuff.Client.Sending.{Filled, send_while-Filled}
use archipelago_hotstuff.Client.Replies.{Counted, Sends, on_ordering1-Sends}

pick_timestamp-rank_example :
    (m : ℕ) × (pick_timestamp 1 (50 ∷ 30 ∷ 90 ∷ []) ≡ some m)
    × (1 + 2 ≤ count_le m (50 ∷ 30 ∷ 90 ∷ []))
    × (1 ≤ count_ge m (50 ∷ 30 ∷ 90 ∷ []))
pick_timestamp-rank_example =
    pick_timestamp-rank 1 (50 ∷ 30 ∷ 90 ∷ []) (omega arith) (omega arith) refl

abbrev digest : ℕ → ℕ → ℕ
digest cid n = cid + n

-- A client that waits for one request, which one replica has answered.
abbrev waiting_client : Client
waiting_client = record {
  max_async_num = 3;
  max_iter_num = none;
  cid = 0;
  cnt = 8;
  nfaulty = 1;
  batch_size = 1;
  conns = 1 ∷ 2 ∷ 3 ∷ 4 ∷ [];
  waiting =
      (
        7,
        record {
          confirmed = 0;
          ordering_rtt1 = 2;
          ordering_rtt2 = 0;
          ordering_rtt3 = 0;
          timestamps = 50 ∷ 30 ∷ [];
        },
      )
      ∷ [];
  waiting_exec = [];
  count_order = 0;
  count_exec = 0;
  sent = [];
}

send_while-Filled_example :
    (t : Client) × (send_while digest waiting_client ≡ some t) × Filled waiting_client t
unfolding lookup
send_while-Filled_example =
    send_while-Filled digest (λ cid a b e. omega (arith, e)) waiting_client (λ i lt. ground arith)
      (omega arith)

on_ordering1-Sends_example :
    (t : Client) × (on_ordering1 7 90 waiting_client ≡ some t)
    × Counted t
    × ((lookup 7 waiting_client.waiting ≡ none) → t ≡ waiting_client)
    × ((r : Request) → lookup 7 waiting_client.waiting ≡ some r → Sends 7 90 r waiting_client t)
on_ordering1-Sends_example =
    on_ordering1-Sends 7 90 waiting_client (refl, tt) (omega arith) (omega arith)

pick_timestamp-faulty_example :
    ((m : ℕ) × (pick_timestamp 1 ((50 ∷ 30 ∷ []) ++ 900 ∷ []) ≡ some m) × (50 < m))
    × ((m : ℕ) × (nth (sort ((50 ∷ 30 ∷ []) ++ 900 ∷ [])) 1 ≡ some m) × (m ≤ 50))
pick_timestamp-faulty_example =
    pick_timestamp-faulty 1 50 (50 ∷ 30 ∷ []) (900 ∷ []) (omega arith) (omega arith) refl refl
      (omega arith, (omega arith, tt)) (omega arith, tt)
