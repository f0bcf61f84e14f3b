-- ===== src/Archipelago/Requests.antt =====
-- `client_ordering1_request_cmd_handler`, for one command that clients send again and again.
use archipelago_hotstuff.Base.{
  if◌then◌else◌, ℕ, zero, suc, ◌+◌, ◌-◌, ◌^◌, ◌≤◌, ◌<◌, ◌≡◌, refl, sym, ap, ◌∙◌, true, false,
  Option, none, some, List, [], ◌∷◌, arith, ltb, Bool-cases, inl, inr, length, lookup, assign,
  lookup-assign, drop,
}
use archipelago_hotstuff.Archipelago.State.{Outcome, Replica, aborted, done, undefined}
use archipelago_hotstuff.Archipelago.Order.{receive, received_with, on_ordering1_request}

-- The requests of the clients at these addresses, one after the other.
abbrev pub request_all : ℕ → List ℕ → Replica → Outcome
request_all h [] s = done s
request_all h (a ∷ addrs) s = elim (on_ordering1_request h a s) [
  | done t ↦ request_all h addrs t
  | aborted ↦ aborted
  | undefined ↦ undefined
]

abbrev pub enqueue_all : ℕ → List ℕ → List (ℕ × ℕ) → List (ℕ × ℕ)
enqueue_all h [] out = out
enqueue_all h (a ∷ addrs) out = enqueue_all h addrs ((h, a) ∷ out)

drop-nil : (n : ℕ) → drop {A = ℕ} n [] ≡ []
drop-nil zero = refl
drop-nil (suc n) = refl

-- How often the command was received.
abbrev pub count_of : ℕ → Replica → ℕ
count_of h s = elim (lookup h s.batch_received) [ none ↦ 0 | some n ↦ n ]

next_count :
    (o : Option ℕ)
    → (elim o as (λ _. ℕ) [ none ↦ 0 | some n ↦ n ]) + 1 < 2 ^ 31
    → (elim o as (λ _. Option ℕ) [
      | none ↦ some 1
      | some n ↦ if ltb (n + 1) (2 ^ 31) then some (n + 1) else none
    ])
      ≡ some ((elim o as (λ _. ℕ) [ none ↦ 0 | some n ↦ n ]) + 1)
next_count none fits = refl
next_count (some n) fits = let y : ltb (n + 1) (2 ^ 31) ≡ true = ground (arith, fits) in rw y refl

received_with-count_of :
    (h : ℕ) (s : Replica)
    → count_of h s + 1 < 2 ^ 31
    → received_with h s.batch_received ≡ some (count_of h s + 1)
unfolding received_with
received_with-count_of h s fits = next_count (lookup h s.batch_received) fits

-- The replica behind a request, without what it orders.
abbrev counted : ℕ → Replica → Replica
counted h s = record s { batch_received = assign h (count_of h s + 1) s.batch_received }

counted-count_of : (h : ℕ) (s : Replica) → count_of h (counted h s) ≡ count_of h s + 1
counted-count_of h s =
    ap (λ o. elim o as (λ _. ℕ) [ none ↦ 0 | some n ↦ n ])
      (lookup-assign h (count_of h s + 1) s.batch_received)

early-request :
    (h a : ℕ) (s : Replica)
    → count_of h s + 1 < 2 ^ 31
    → ltb (count_of h s + 1) s.clnt_blk_size ≡ true
    → on_ordering1_request h a s ≡ done (counted h s)
unfolding on_ordering1_request
early-request h a s fits y =
    rw (received_with-count_of h s fits, y, on_ordering1_request, receive) refl

late-request :
    (h a : ℕ) (s : Replica)
    → count_of h s + 1 < 2 ^ 31
    → ltb (count_of h s + 1) s.clnt_blk_size ≡ false
    → on_ordering1_request h a s ≡ done (record (counted h s) { ordering1 = (h, a) ∷ s.ordering1 })
unfolding on_ordering1_request
late-request h a s fits y =
    rw (received_with-count_of h s fits, y, on_ordering1_request, receive) refl

next_request :
    (h a : ℕ) (addrs : List ℕ) (s t : Replica)
    → on_ordering1_request h a s ≡ done t
    → request_all h (a ∷ addrs) s ≡ request_all h addrs t
next_request h a addrs s t e =
    ap
      (λ o. elim o as (λ _. Outcome) [
        | done u ↦ request_all h addrs u
        | aborted ↦ aborted
        | undefined ↦ undefined
      ])
      e

-- Of fewer than 2^31 requests for a command, the first clnt_blk_size - 1 are counted, and each one
-- from the next on puts the command in the queue for a timestamp, with its client; the count does
-- not overflow.
pub request_all-enqueue_all :
    (h : ℕ) (addrs : List ℕ) (s : Replica)
    → count_of h s + length addrs < 2 ^ 31
    → (t : Replica) × (request_all h addrs s ≡ done t)
      × (t.ordering1 ≡ enqueue_all h (drop (s.clnt_blk_size - 1 - count_of h s) addrs) s.ordering1)
      × (count_of h t ≡ count_of h s + length addrs)
request_all-enqueue_all h [] s fits = (
  s,
  refl,
  ap (λ as1. enqueue_all h as1 s.ordering1) (sym (drop-nil (s.clnt_blk_size - 1 - count_of h s))),
  omega arith,
)
request_all-enqueue_all h (a ∷ addrs) s fits =
    let c = counted-count_of h s in
    let small : count_of h s + 1 < 2 ^ 31 = omega (arith, fits) in
    elim (Bool-cases (ltb (count_of h s + 1) s.clnt_blk_size)) [
      | inl y ↦
          let lt : count_of h s + 1 < s.clnt_blk_size = ground (arith, y) in
          let q : s.clnt_blk_size - 1 - count_of h s
              ≡ suc (s.clnt_blk_size - 1 - (count_of h s + 1)) =
            omega (arith, lt) in
          let (t, e, o, k) =
            request_all-enqueue_all h addrs (counted h s) (omega (arith, c, fits)) in
          (
            t,
            next_request h a addrs s (counted h s) (early-request h a s small y) ∙ e,
            o
                ∙ ap (λ n. enqueue_all h (drop (s.clnt_blk_size - 1 - n) addrs) s.ordering1) c
                ∙ ap (λ n. enqueue_all h (drop n (a ∷ addrs)) s.ordering1) (sym q),
            omega (arith, c, k),
          )
      | inr y ↦
          let ge : s.clnt_blk_size ≤ count_of h s + 1 = ground (arith, y) in
          let q0 : s.clnt_blk_size - 1 - count_of h s ≡ 0 = omega (arith, ge) in
          let q1 : s.clnt_blk_size - 1 - (count_of h s + 1) ≡ 0 = omega (arith, ge) in
          let u : Replica = record (counted h s) { ordering1 = (h, a) ∷ s.ordering1 } in
          let (t, e, o, k) = request_all-enqueue_all h addrs u (omega (arith, c, fits)) in
          (
            t,
            next_request h a addrs s u (late-request h a s small y) ∙ e,
            o
                ∙ ap
                    (λ n.
                      enqueue_all h (drop (s.clnt_blk_size - 1 - n) addrs) ((h, a) ∷ s.ordering1))
                    c
                ∙ ap (λ n. enqueue_all h (drop n addrs) ((h, a) ∷ s.ordering1)) q1
                ∙ ap (λ n. enqueue_all h (drop n (a ∷ addrs)) s.ordering1) (sym q0),
            omega (arith, c, k),
          )
    ]
