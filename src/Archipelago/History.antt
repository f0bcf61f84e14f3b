-- ===== src/Archipelago/History.antt =====
-- The leader over time: the replies of a batch.
use archipelago_hotstuff.Base.{
  Option-cases, true, ◌==◌, member, ℕ, zero, suc, ◌+◌, ◌-◌, ◌^◌, ◌≤◌, ◌<◌, ◌≡◌, refl, sym, ap, ◌∙◌,
  subst, some, List, [], ◌∷◌, arith, inl, inr, Bool-cases, ltb, if◌then◌else◌, length, lookup,
  lookup-cons, assign, assign-same, take, drop, take-drop, drop-nth, take-take, All,
}
use archipelago_hotstuff.Archipelago.State.{
  Consensus, Entry, Replica, Outcome, done, aborted, undefined,
}
use archipelago_hotstuff.Archipelago.Order.{
  on_request, on_ordering1_request, receive, received_with, on_ordering2_request,
}
use archipelago_hotstuff.Archipelago.Check.{on_consensus_request, on_consensus_response}
use archipelago_hotstuff.Archipelago.Execute.{reply_from, reply_batch, on_executed}
use archipelago_hotstuff.Archipelago.Sort.{IsSort}
use archipelago_hotstuff.Archipelago.Leader.{
  Archived, ExtendsPrefix, NoCollision, Consecutive, Earlier, on_ordering2_request-Orders,
}

-- The clients of the entries are told of their commands, one after the other.
abbrev pub tell_all : List Entry → List (ℕ × ℕ) → List (ℕ × ℕ)
tell_all [] out = out
tell_all (e ∷ es) out = tell_all es ((e.cmd_hash, e.addr) ∷ out)

-- The entries at the indices from `a` to before `b`.
abbrev pub slice : ℕ → ℕ → List Entry → List Entry
slice a b es = take (b - a) (drop a es)

slice-take : (a b : ℕ) (es : List Entry) → a ≤ b → slice a b es ≡ drop a (take b es)
slice-take a b es h = take-drop a (b - a) es ∙ ap (λ k. drop a (take k es)) (omega arith)

slice-prefix :
    (a b n : ℕ) (es as1 : List Entry)
    → a ≤ b
    → b ≤ n
    → take n es ≡ take n as1
    → slice a b es ≡ slice a b as1
slice-prefix a b n es as1 h i e =
    slice-take a b es h
    ∙ ap (drop a) (sym (take-take b n es i) ∙ ap (take b) e ∙ take-take b n as1 i)
    ∙ sym (slice-take a b as1 h)

Consecutive-lookup :
    (h : ℕ) (a b n : ℕ) (m : List (ℕ × (ℕ × ℕ)))
    → Consecutive m n
    → lookup h m ≡ some (a, b)
    → (a ≤ b) × (b ≤ n)
unfolding lookup
Consecutive-lookup h a b n [] c e = cc
Consecutive-lookup h a b n ((k, (x, y)) ∷ m) (top, le, c) e =
    elim (lookup-cons k h (x, y) (a, b) m e) [
      | inl (_, same) ↦
          let p : x ≡ a = ap (λ q. q.0) same in
          let q : y ≡ b = ap (λ q. q.1) same in (omega (arith, p, q, le), omega (arith, q, top))
      | inr found ↦
          let (i, j) = Consecutive-lookup h a b x m c found in (i, omega (arith, j, le, top))
    ]

reply_from-tell_all :
    (n i : ℕ) (es : List Entry) (out : List (ℕ × ℕ))
    → i + n ≤ length es
    → reply_from n i es out ≡ some (tell_all (take n (drop i es)) out)
unfolding reply_from
reply_from-tell_all zero i es out h = refl
reply_from-tell_all (suc n) i es out h =
    let (e, at_i, d) = drop-nth i es (omega arith) in
    rw (at_i, reply_from)
      (reply_from-tell_all n (i + 1) es ((e.cmd_hash, e.addr) ∷ out) (omega arith)
        ∙ ap (λ xs. some (tell_all (take (suc n) xs) out)) (sym d))

-- The replica behind the callback of a batch.
abbrev told : ℕ → ℕ → ℕ → Replica → Replica
told h a b s = record s {
  exec_client_rsp = assign h (a, b) s.exec_client_rsp;
  client_replies = tell_all (slice a b s.commit_set) s.client_replies;
  exec_count = if ltb s.exec_count b then b else s.exec_count;
}

module _ (digest : ℕ → ℕ → ℕ) (h a b : ℕ) (s : Replica) (inv : Archived digest s)
    (found : lookup h s.exec_client_rsp ≡ some (a, b)) where
  executed-told : on_executed h s ≡ done (told h a b s)
  unfolding on_executed
  executed-told =
      let (le, top) =
        Consecutive-lookup h a b s.stable_point_idx s.exec_client_rsp inv.batches found in
      let replies =
        reply_from-tell_all (b - a) a s.commit_set s.client_replies
          (omega (arith, le, top, inv.within)) in
      rw (found, on_executed, replies, reply_batch) refl

  told-Archived : Archived digest (told h a b s)
  told-Archived =
      let same = assign-same h (a, b) s.exec_client_rsp found in
      record {
        point = inv.point;
        within = inv.within;
        batches = subst (λ m. Consecutive m s.stable_point_idx) (sym same) inv.batches;
        keys = subst (λ m. All (λ e. Earlier digest s.cmd_cnt e.0) m) (sym same) inv.keys;
      }

  told-ExtendsPrefix : ExtendsPrefix s (told h a b s)
  told-ExtendsPrefix =
      let same = assign-same h (a, b) s.exec_client_rsp found in
      record { grows = omega arith; prefix = refl; remembers = λ k p f. ap (lookup k) same ∙ f }

ExtendsPrefix-refl : (s : Replica) → ExtendsPrefix s s
ExtendsPrefix-refl s = record { grows = omega arith; prefix = refl; remembers = λ h p f. f }

ExtendsPrefix-trans : (s t u : Replica) → ExtendsPrefix s t → ExtendsPrefix t u → ExtendsPrefix s u
ExtendsPrefix-trans s t u x y = record {
  grows = omega (arith, x.grows, y.grows);
  prefix =
      sym (take-take s.stable_point_idx t.stable_point_idx u.commit_set x.grows)
      ∙ ap (take s.stable_point_idx) y.prefix
      ∙ take-take s.stable_point_idx t.stable_point_idx t.commit_set x.grows
      ∙ x.prefix;
  remembers = λ h p f. y.remembers h p (x.remembers h p f);
}

-- What happens to a replica, step by step: the requests of clients, with fewer than 2^32 entries and
-- commands, the callbacks of batches that it cut, the answers to its consensus requests, and, at the
-- leader, which is server 1, a consensus request.
pub data Steps (digest : ℕ → ℕ → ℕ) (sort : List Entry → List Entry) (s : Replica)
    : Replica → Type 0 where
  start : Steps digest sort s s
  request :
      (h addr : ℕ) {t : Replica} → Steps digest sort s t → Steps digest sort s (on_request h addr t)
  ordering1 :
      (h addr : ℕ) {t u : Replica}
      → Steps digest sort s t
      → on_ordering1_request h addr t ≡ done u
      → Steps digest sort s u
  ordering2 :
      (now : ℕ) (e : Entry) {t u : Replica}
      → length t.commit_set + 1 < 2 ^ 32
      → t.cmd_cnt + 5 < 2 ^ 32
      → Steps digest sort s t
      → on_ordering2_request digest sort now e t ≡ done u
      → Steps digest sort s u
  executed :
      (h a b : ℕ) {t u : Replica}
      → lookup h t.exec_client_rsp ≡ some (a, b)
      → Steps digest sort s t
      → on_executed h t ≡ done u
      → Steps digest sort s u
  consensus :
      (msg : Consensus) {t u : Replica}
      → t.id ≡ 1
      → Steps digest sort s t
      → on_consensus_request sort msg t ≡ done u
      → Steps digest sort s u
  response :
      (h : ℕ) {t : Replica}
      → Steps digest sort s t
      → Steps digest sort s (on_consensus_response h t)

abbrev as_done : Replica → Outcome → Replica
as_done s (done t) = t
as_done s aborted = s
as_done s undefined = s

module _ (digest : ℕ → ℕ → ℕ) (sort : List Entry → List Entry) (law : IsSort sort)
    (inj : NoCollision digest) where
  receive-Archived :
      (n h addr : ℕ) (t : Replica)
      → Archived digest t
      → Archived digest (receive n h addr t) × ExtendsPrefix t (receive n h addr t)
  unfolding receive
  receive-Archived n h addr t inv = elim (Bool-cases (ltb n t.clnt_blk_size)) [
    | inl y ↦ rw y (
      record { point = inv.point; within = inv.within; batches = inv.batches; keys = inv.keys },
      record { grows = omega arith; prefix = refl; remembers = λ k p f. f },
    )
    | inr late ↦ rw late (
      record { point = inv.point; within = inv.within; batches = inv.batches; keys = inv.keys },
      record { grows = omega arith; prefix = refl; remembers = λ k p f. f },
    )
  ]

  ordering1-Archived :
      (h addr : ℕ) (t u : Replica)
      → Archived digest t
      → on_ordering1_request h addr t ≡ done u
      → Archived digest u × ExtendsPrefix t u
  unfolding on_ordering1_request
  ordering1-Archived h addr t u inv e = elim (Option-cases (received_with h t.batch_received)) [
    | inl over ↦ let x : undefined ≡ done u = (rw (over, on_ordering1_request) at e) in cc
    | inr (n, next) ↦
        let x : done (receive n h addr t) ≡ done u = (rw (next, on_ordering1_request) at e) in
        let same : receive n h addr t ≡ u = ap (as_done t) x in
        subst (λ v. Archived digest v × ExtendsPrefix t v) same (receive-Archived n h addr t inv)
  ]

  response-Archived :
      (h : ℕ) (t : Replica)
      → Archived digest t
      → Archived digest (on_consensus_response h t) × ExtendsPrefix t (on_consensus_response h t)
  unfolding on_consensus_response
  response-Archived h t inv = elim (Bool-cases (t.id == 1)) [
    | inl first ↦ elim (Bool-cases (member h t.leader_propose)) [
      | inl known ↦ rw (first, known) (inv, ExtendsPrefix-refl t)
      | inr new ↦
          rw (first, new)
            (
              record {
                point = inv.point;
                within = inv.within;
                batches = inv.batches;
                keys = inv.keys;
              },
              record { grows = omega arith; prefix = refl; remembers = λ k p f. f },
            )
    ]
    | inr other ↦ rw other (inv, ExtendsPrefix-refl t)
  ]

  leader-on_consensus_request :
      (msg : Consensus) (t : Replica) → t.id ≡ 1 → on_consensus_request sort msg t ≡ done t
  unfolding on_consensus_request
  leader-on_consensus_request msg t first =
      let y : (t.id == 1) ≡ true = rw first refl in rw (y, on_consensus_request) refl

  -- A replica whose state is in order, with a sort that does what it is to do and hashes of batches
  -- that do not collide, goes through any requests of clients, with fewer than 2^32 entries and
  -- commands, callbacks of batches that it cut, answers to its consensus requests and, if it is
  -- server 1, consensus requests: its state stays in order, the commands at the indices below its
  -- stable point stay there, and its batches keep their bounds.
  pub Steps-Archived :
      (s : Replica)
      → Archived digest s
      → {t : Replica} → Steps digest sort s t
      → Archived digest t × ExtendsPrefix s t
  unfolding on_request
  Steps-Archived s inv start = (inv, ExtendsPrefix-refl s)
  Steps-Archived s inv (request h addr {t} d) =
      let (i, x) = Steps-Archived s inv d in
      (
        record { point = i.point; within = i.within; batches = i.batches; keys = i.keys },
        record { grows = x.grows; prefix = x.prefix; remembers = x.remembers },
      )
  Steps-Archived s inv (ordering1 h addr {t} {u} d eq) =
      let (i, x) = Steps-Archived s inv d in
      let (j, y) = ordering1-Archived h addr t u i eq in (j, ExtendsPrefix-trans s t u x y)
  Steps-Archived s inv (ordering2 now e {t} {u} small fits d eq) =
      let (i, x) = Steps-Archived s inv d in
      let (v, eq', o) = on_ordering2_request-Orders digest inj sort law now e t i small fits in
      let same : v ≡ u = ap (as_done t) (sym eq' ∙ eq) in
      (
        subst (Archived digest) same o.inv,
        subst (ExtendsPrefix s) same (ExtendsPrefix-trans s t v x o.extends),
      )
  Steps-Archived s inv (executed h a b {t} {u} found d eq) =
      let (i, x) = Steps-Archived s inv d in
      let same : told h a b t ≡ u =
        ap (as_done t) (sym (executed-told digest h a b t i found) ∙ eq) in
      (
        subst (Archived digest) same (told-Archived digest h a b t i found),
        subst (ExtendsPrefix s) same
            (ExtendsPrefix-trans s t (told h a b t) x (told-ExtendsPrefix digest h a b t i found)),
      )
  Steps-Archived s inv (consensus msg {t} {u} first d eq) =
      let (i, x) = Steps-Archived s inv d in
      let same : t ≡ u = ap (as_done t) (sym (leader-on_consensus_request msg t first) ∙ eq) in
      (subst (Archived digest) same i, subst (ExtendsPrefix s) same x)
  Steps-Archived s inv (response h {t} d) =
      let (i, x) = Steps-Archived s inv d in
      let (j, y) = response-Archived h t i in
      (j, ExtendsPrefix-trans s t (on_consensus_response h t) x y)

  -- A replica whose state is in order, with a sort that does what it is to do and hashes of batches
  -- that do not collide, has a batch and goes through any requests of clients, with fewer than 2^32
  -- entries and commands, callbacks of batches that it cut, answers to its consensus requests and,
  -- if it is server 1, consensus requests; the callback of the batch then reads nothing outside the
  -- commit set, and tells exactly the clients of the commands that were at the indices of the batch
  -- before those steps, in their order.
  pub on_executed-Steps :
      (h a b : ℕ) (s t : Replica)
      → Archived digest s
      → lookup h s.exec_client_rsp ≡ some (a, b)
      → Steps digest sort s t
      → (u : Replica) × (on_executed h t ≡ done u)
        × (u.client_replies ≡ tell_all (slice a b s.commit_set) t.client_replies)
        × (b ≤ u.exec_count)
  on_executed-Steps h a b s t inv found d =
      let (i, x) = Steps-Archived s inv d in
      let (le, top) =
        Consecutive-lookup h a b s.stable_point_idx s.exec_client_rsp inv.batches found in
      (
        told h a b t,
        executed-told digest h a b t i (x.remembers h (a, b) found),
        ap (λ es. tell_all es t.client_replies)
            (slice-prefix a b s.stable_point_idx t.commit_set s.commit_set le top x.prefix),
        ground arith,
      )
