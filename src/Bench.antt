-- ===== src/Bench.antt =====
-- The client of the plain protocol: hotstuff/examples/hotstuff_client.cpp, in the benchmark build.
-- Its clocks and its logs are left out.
pub mod Filling
pub mod Rounds
use archipelago_hotstuff.Base.{
  ℕ, zero, suc, ◌+◌, ◌-◌, ◌%◌, ◌^◌, Bool, true, false, Option, none, some, List, [], ◌∷◌, ltb, leb,
  if◌then◌else◌, lookup, length, remove, write, insert_new,
}

-- `max_iter_num` is negative in the code for no limit, `none` here. `waiting` has the requests by the
-- hashes of their commands, with the number of answers so far; `commands` the messages with the
-- replica that each goes to, newest first; `elapsed` the requests that are done.
pub record Bencher : Type 0 where
  pub max_async_num : ℕ
  pub max_iter_num : Option ℕ
  pub cid : ℕ
  pub cnt : ℕ
  pub nfaulty : ℕ
  pub conns : List ℕ
  pub waiting : List (ℕ × ℕ)
  pub commands : List (ℕ × ℕ)
  pub elapsed : List ℕ

-- `for (auto &p: conns) mn.send_msg(msg, p.second);`
unfoldable pub send_command : List ℕ → (cmd_hash : ℕ) → List (ℕ × ℕ) → List (ℕ × ℕ)
send_command [] h out = out
send_command (c ∷ cs) h out = send_command cs h ((c, h) ∷ out)

-- `max_iter_num` in a condition.
abbrev pub may_send : Option ℕ → Bool
may_send none = true
may_send (some zero) = false
may_send (some (suc n)) = true

-- `if (max_iter_num > 0) max_iter_num--;`
abbrev pub count_down : Option ℕ → Option ℕ
count_down none = none
count_down (some n) = some (n - 1)

-- `try_send` behind its test. `digest` is the hash of `CommandDummy(cid, n)`.
unfoldable pub send_new : (digest : ℕ → ℕ → ℕ) → Bencher → Bencher
unfolding send_command
send_new digest c =
    let h = digest c.cid c.cnt in
    record c {
      cnt = (c.cnt + 1) % 2 ^ 32;
      commands = send_command c.conns h c.commands;
      waiting = insert_new h 0 c.waiting;
      max_iter_num = count_down c.max_iter_num;
    }

-- The test of `try_send()`.
unfoldable pub has_room : Bencher → Bool
has_room c = if ltb (length c.waiting) c.max_async_num then may_send c.max_iter_num else false

-- `while (try_send());`, or `none` when the fuel runs out.
unfoldable pub send_rounds : (digest : ℕ → ℕ → ℕ) → ℕ → Bencher → Option Bencher
unfolding has_room send_new
send_rounds digest zero c = none
send_rounds digest (suc fuel) c = elim (has_room c) [
  | true ↦ send_rounds digest fuel (send_new digest c)
  | false ↦ some c
]

-- Each round fills one place.
unfoldable pub send_new_all : (digest : ℕ → ℕ → ℕ) → Bencher → Option Bencher
unfolding send_rounds
send_new_all digest c = send_rounds digest (suc (c.max_async_num - length c.waiting)) c

-- `client_resp_cmd_handler`, which reads the entry before it tests that there is one: `none` is
-- undefined behaviour.
unfoldable pub on_answer : (digest : ℕ → ℕ → ℕ) → (cmd_hash : ℕ) → Bencher → Option Bencher
unfolding send_new_all
on_answer digest h c = elim (lookup h c.waiting) [
  | none ↦ none
  | some confirmed ↦
      if leb (confirmed + 1) c.nfaulty
      then some (record c { waiting = write h (confirmed + 1) c.waiting })
      else send_new_all digest (record c { waiting = remove h c.waiting; elapsed = h ∷ c.elapsed })
]

-- `on_answer` on the answers to one request, one after the other.
unfoldable pub on_answers : (digest : ℕ → ℕ → ℕ) → (cmd_hash count : ℕ) → Bencher → Option Bencher
unfolding on_answer
on_answers digest h zero c = some c
on_answers digest h (suc n) c = elim (on_answer digest h c) [
  | none ↦ none
  | some d ↦ on_answers digest h n d
]
