-- ===== src/Client.antt =====
-- The Archipelago client: hotstuff/examples/archipelago_client.cpp, in the benchmark build. Its
-- clocks and its logs are left out.
pub mod Median
pub mod Sending
pub mod Replies
use archipelago_hotstuff.Base.{
  ℕ, zero, suc, ◌+◌, ◌-◌, ◌*◌, ◌/◌, ◌%◌, ◌^◌, Bool, true, false, Option, none, some, List, [], ◌∷◌,
  ◌++◌, ltb, leb, ◌==◌, if◌then◌else◌, lookup, length, map, sort, nth, remove, write, insert_new,
}

pub record Request : Type 0 where
  pub confirmed : ℕ
  pub ordering_rtt1 : ℕ
  pub ordering_rtt2 : ℕ
  pub ordering_rtt3 : ℕ
  pub timestamps : List ℕ

unfoldable pub new_request : Request
new_request = record {
  confirmed = 0;
  ordering_rtt1 = 0;
  ordering_rtt2 = 0;
  ordering_rtt3 = 0;
  timestamps = [];
}

-- What the client sends.
pub data Sent : Type 0 where
  ordering1 : (cmd_hash : ℕ) → Sent
  ordering2 : (cmd_hash timestamp : ℕ) → Sent

-- `max_iter_num` is negative in the code for no limit, `none` here. `sent` holds the messages with
-- the replica that each goes to, newest first.
pub record Client : Type 0 where
  pub max_async_num : ℕ
  pub max_iter_num : Option ℕ
  pub cid : ℕ
  pub cnt : ℕ
  pub nfaulty : ℕ
  pub batch_size : ℕ
  pub conns : List ℕ
  pub waiting : List (ℕ × Request)
  pub waiting_exec : List (ℕ × Request)
  pub count_order : ℕ
  pub count_exec : ℕ
  pub sent : List (ℕ × Sent)

-- `for (auto &p: conns) mn.send_msg(msg, p.second);`
unfoldable pub send_all : List ℕ → Sent → List (ℕ × Sent) → List (ℕ × Sent)
send_all [] m out = out
send_all (c ∷ cs) m out = send_all cs m ((c, m) ∷ out)

unfoldable pub send_batch : ℕ → List ℕ → Sent → List (ℕ × Sent) → List (ℕ × Sent)
unfolding send_all
send_batch zero cs m out = out
send_batch (suc n) cs m out = send_batch n cs m (send_all cs m out)

-- `max_iter_num` in a condition.
abbrev pub is_left : Option ℕ → Bool
is_left none = true
is_left (some zero) = false
is_left (some (suc n)) = true

-- `if (max_iter_num > 0) max_iter_num--;`
abbrev pub one_less : Option ℕ → Option ℕ
one_less none = none
one_less (some n) = some (n - 1)

-- The body of `try_send` behind its test. `digest` is the hash of `CommandDummy(cid, n)`.
unfoldable pub send_next : (digest : ℕ → ℕ → ℕ) → Client → Client
unfolding send_batch new_request
send_next digest c =
    let h = digest c.cid c.cnt in
    record c {
      cnt = (c.cnt + 1) % 2 ^ 32;
      sent = send_batch c.batch_size c.conns (ordering1 h) c.sent;
      waiting = insert_new h new_request c.waiting;
      max_iter_num = one_less c.max_iter_num;
    }

-- `try_send()`: the result, and the client behind it.
unfoldable pub try_send : (digest : ℕ → ℕ → ℕ) → Client → Bool × Client
unfolding send_next
try_send digest c =
    if ltb (length c.waiting) c.max_async_num
    then if is_left c.max_iter_num then (true, send_next digest c) else (false, c)
    else (false, c)

-- `while (try_send());`, or `none` when the fuel runs out.
unfoldable pub send_loop : (digest : ℕ → ℕ → ℕ) → ℕ → Client → Option Client
unfolding try_send
send_loop digest zero c = none
send_loop digest (suc fuel) c = elim ((try_send digest c).0) [
  | true ↦ send_loop digest fuel (try_send digest c).1
  | false ↦ some (try_send digest c).1
]

-- Each round of the loop fills one place, so one more round than there are places is enough.
unfoldable pub send_while : (digest : ℕ → ℕ → ℕ) → Client → Option Client
unfolding send_loop
send_while digest c = send_loop digest (suc (c.max_async_num - length c.waiting)) c

-- `nfaulty * 2 + 1` in 32 bits.
abbrev pub quorum : Client → ℕ
quorum c = (c.nfaulty * 2 + 1) % 2 ^ 32

-- `timestamps[nfaulty + 1]` of the sorted timestamps; outside the vector the code is undefined.
unfoldable pub pick_timestamp : (nfaulty : ℕ) → List ℕ → Option ℕ
pick_timestamp nfaulty ts = nth (sort ts) ((nfaulty + 1) % 2 ^ 32)

-- `client_ordering1_resp_cmd_handler` for a waiting request. `none` is undefined behaviour.
unfoldable pub take_timestamp : (cmd_hash timestamp_us : ℕ) → Request → Client → Option Client
unfolding pick_timestamp send_all
take_timestamp h ts r c =
    let r1 : Request = record r {
      timestamps = r.timestamps ++ ts ∷ [];
      ordering_rtt1 = r.ordering_rtt1 + 1;
    } in
    let r2 : Request = record r1 { timestamps = sort r1.timestamps } in
    if r1.ordering_rtt1 == quorum c
    then elim (pick_timestamp c.nfaulty r1.timestamps) [
      | none ↦ none
      | some m ↦ some (record c {
        waiting = write h r2 c.waiting;
        sent = send_all c.conns (ordering2 h m) c.sent;
      })
    ]
    else some (record c { waiting = write h r1 c.waiting })

unfoldable pub on_ordering1 : (cmd_hash timestamp_us : ℕ) → Client → Option Client
unfolding take_timestamp
on_ordering1 h ts c = elim (lookup h c.waiting) [ none ↦ some c | some r ↦ take_timestamp h ts r c ]

-- `client_ordering2_resp_cmd_handler` for a waiting request.
unfoldable pub take_ack : (digest : ℕ → ℕ → ℕ) → (cmd_hash : ℕ) → Request → Client → Option Client
unfolding send_while
take_ack digest h r c =
    let r1 : Request = record r { ordering_rtt2 = r.ordering_rtt2 + 1 } in
    if r1.ordering_rtt2 == quorum c
    then send_while digest (record c {
      count_order = c.count_order + 1;
      waiting_exec = insert_new h r1 c.waiting_exec;
      waiting = remove h c.waiting;
    })
    else some (record c { waiting = write h r1 c.waiting })

unfoldable pub on_ordering2 : (digest : ℕ → ℕ → ℕ) → (cmd_hash : ℕ) → Client → Option Client
unfolding take_ack
on_ordering2 digest h c = elim (lookup h c.waiting) [
  | none ↦ some c
  | some r ↦ take_ack digest h r c
]

-- `client_ordering_exec_resp_handler` for a request that waits for its execution.
unfoldable pub take_exec : (cmd_hash : ℕ) → Request → Client → Client
take_exec h r c =
    let r1 : Request = record r { ordering_rtt3 = r.ordering_rtt3 + 1 } in
    if r1.ordering_rtt3 == 1
    then record c { count_exec = c.count_exec + 1; waiting_exec = remove h c.waiting_exec }
    else record c { waiting_exec = write h r1 c.waiting_exec }

unfoldable pub on_exec : (cmd_hash : ℕ) → Client → Client
unfolding take_exec
on_exec h c = elim (lookup h c.waiting_exec) [ none ↦ c | some r ↦ take_exec h r c ]

-- `client_resp_cmd_handler`, which reads the entry before it tests that there is one.
unfoldable pub on_resp : (digest : ℕ → ℕ → ℕ) → (cmd_hash : ℕ) → Client → Option Client
unfolding send_while
on_resp digest h c = elim (lookup h c.waiting) [
  | none ↦ none
  | some r ↦
      let r1 : Request = record r { confirmed = r.confirmed + 1 } in
      if leb r1.confirmed c.nfaulty
      then some (record c { waiting = write h r1 c.waiting })
      else send_while digest (record c { waiting = remove h c.waiting })
]

-- `nfaulty = (replicas.size() - 1) / 3`
unfoldable pub faults_of : ℕ → ℕ
faults_of n = ((n + 2 ^ 64 - 1) % 2 ^ 64 / 3) % 2 ^ 32
