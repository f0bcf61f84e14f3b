-- ===== src/Client/Replies.antt =====
-- The handlers of the client: how it counts the replies to a request.
use archipelago_hotstuff.Base.{
  ℕ, ◌+◌, ◌*◌, ◌^◌, ◌<◌, ◌≡◌, ◌≢◌, refl, ◌∙◌, true, false, none, some, [], ◌∷◌, ◌++◌, arith, inl,
  inr, ◌==◌, ==_ne, ==_iff, subst, Bool-cases, Option-cases, All, All-write, All-lookup, length,
  length-append, length-sort, lookup, lookup-write, lookup-write_other, List, write, sort,
}
use archipelago_hotstuff.Client.{
  Client, Request, Sent, ordering2, send_all, pick_timestamp, take_timestamp, on_ordering1, quorum,
}
use archipelago_hotstuff.Client.Median.{pick_timestamp-rank}

-- Each waiting request counts the timestamps that it holds.
abbrev pub Counted : Client → Type 0
Counted c = All (λ e. e.1.ordering_rtt1 ≡ length e.1.timestamps) c.waiting

-- The request with one more timestamp; the last one of a quorum has the code sort them.
abbrev pub stamped : List ℕ → Request → Request
stamped tss r = record r { ordering_rtt1 = r.ordering_rtt1 + 1; timestamps = tss }

-- Request `h` waits as `r` in `t`, and all others as in `c`.
abbrev pub Waits : ℕ → Request → Client → Client → Type 0
Waits h r c t =
    (lookup h t.waiting ≡ some r) × ((j : ℕ) → h ≢ j → lookup j t.waiting ≡ lookup j c.waiting)

-- What a timestamp does to a waiting request `r`, which keeps it: the last one of a quorum makes the
-- client send a timestamp of the quorum to all, any other one nothing.
abbrev pub Sends : ℕ → ℕ → Request → Client → Client → Type 0
Sends h ts r c t =
    ((length r.timestamps ≡ c.nfaulty * 2)
      → (m : ℕ) × (pick_timestamp c.nfaulty (r.timestamps ++ ts ∷ []) ≡ some m)
        × (t.sent ≡ send_all c.conns (ordering2 h m) c.sent)
        × Waits h (stamped (sort (r.timestamps ++ ts ∷ [])) r) c t)
    × ((length r.timestamps ≢ c.nfaulty * 2)
        → (t.sent ≡ c.sent) × Waits h (stamped (r.timestamps ++ ts ∷ []) r) c t)

length-snoc : (xs : List ℕ) (x : ℕ) → length (xs ++ x ∷ []) ≡ length xs + 1
length-snoc xs x = omega (arith, length-append xs (x ∷ []))

module _ (h ts : ℕ) (c : Client) (r : Request) (counted : Counted c) (pos : 0 < c.nfaulty)
    (fits : c.nfaulty * 2 + 1 < 2 ^ 32) (e : lookup h c.waiting ≡ some r) where
  own_count : r.ordering_rtt1 ≡ length r.timestamps
  own_count = All-lookup (λ k v. v.ordering_rtt1 ≡ length v.timestamps) h r c.waiting counted e

  write-Waits :
      (q : Request) (out : List (ℕ × Sent))
      → Waits h q c (record c { waiting = write h q c.waiting; sent = out })
  write-Waits q out =
      (lookup-write h q r c.waiting e, λ j ne. lookup-write_other h j q c.waiting ne)

  last-take_timestamp :
      (m : ℕ)
      → length r.timestamps ≡ c.nfaulty * 2
      → pick_timestamp c.nfaulty (r.timestamps ++ ts ∷ []) ≡ some m
      → take_timestamp h ts r c
        ≡ some (record c {
          waiting =
              write h
                (record r {
                  ordering_rtt1 = r.ordering_rtt1 + 1;
                  timestamps = sort (r.timestamps ++ ts ∷ []);
                })
                c.waiting;
          sent = send_all c.conns (ordering2 h m) c.sent;
        })
  unfolding take_timestamp
  last-take_timestamp m last picked =
      let yes : (r.ordering_rtt1 + 1 == quorum c) ≡ true =
        (==_iff _ _).1 (omega (arith, own_count, last, fits)) in
      rw (yes, picked) refl

  last-Sends :
      length r.timestamps ≡ c.nfaulty * 2
      → (t : Client) × (take_timestamp h ts r c ≡ some t) × Counted t × Sends h ts r c t
  last-Sends last =
      let (m, picked, _, _) =
        pick_timestamp-rank c.nfaulty (r.timestamps ++ ts ∷ []) pos (omega arith)
          (length-snoc r.timestamps ts ∙ omega (arith, last)) in
      (
        _,
        last-take_timestamp m last picked,
        All-write (λ k v. v.ordering_rtt1 ≡ length v.timestamps) h _ c.waiting
            (omega (
              arith,
              own_count,
              length-snoc r.timestamps ts,
              length-sort (r.timestamps ++ ts ∷ []),
            ))
            counted,
        (
          (λ x. (m, picked, refl, write-Waits _ (send_all c.conns (ordering2 h m) c.sent))),
          (λ x. absurd (x last)),
        ),
      )

  other-Sends :
      length r.timestamps ≢ c.nfaulty * 2
      → (t : Client) × (take_timestamp h ts r c ≡ some t) × Counted t × Sends h ts r c t
  unfolding take_timestamp
  other-Sends other =
      let ne : (r.ordering_rtt1 + 1 == quorum c) ≡ false =
        ==_ne _ _ (λ x. other (omega (arith, own_count, x, fits))) in
      rw ne (
        _,
        refl,
        All-write (λ k v. v.ordering_rtt1 ≡ length v.timestamps) h _ c.waiting
            (omega (arith, own_count, length-snoc r.timestamps ts)) counted,
        ((λ x. absurd (other x)), (λ x. (refl, write-Waits _ c.sent))),
      )

  take_timestamp-Sends :
      (t : Client) × (take_timestamp h ts r c ≡ some t) × Counted t × Sends h ts r c t
  take_timestamp-Sends = elim (Bool-cases (length r.timestamps == c.nfaulty * 2)) [
    | inl y ↦ last-Sends ((==_iff _ _).0 y)
    | inr n ↦ other-Sends (λ x. let y = (==_iff _ _).1 x in cc)
  ]

-- A timestamp that a replica returns, with more than no fault to tolerate and the quorum in 32
-- bits: the client stays in order, and reads no timestamp that it does not have; one for a request
-- that does not wait changes nothing; any other one is counted and kept with those before it, and
-- changes no other request; the last one of a quorum, and no other, makes the client send a
-- timestamp of the quorum to all replicas.
pub on_ordering1-Sends :
    (h ts : ℕ) (c : Client)
    → Counted c
    → 0 < c.nfaulty
    → c.nfaulty * 2 + 1 < 2 ^ 32
    → (t : Client) × (on_ordering1 h ts c ≡ some t)
      × Counted t
      × ((lookup h c.waiting ≡ none) → t ≡ c)
      × ((r : Request) → lookup h c.waiting ≡ some r → Sends h ts r c t)
unfolding on_ordering1
on_ordering1-Sends h ts c counted pos fits = elim (Option-cases (lookup h c.waiting)) [
  | inl e ↦ rw (e, on_ordering1) (c, refl, counted, (λ _. refl), (λ r x. cc))
  | inr (r, e) ↦
      let (t, sends, ok, all) = take_timestamp-Sends h ts c r counted pos fits e in
      (
        t,
        (rw (e, on_ordering1) sends),
        ok,
        (λ x. cc),
        (λ q x. let same : r ≡ q = cc in subst (λ z. Sends h ts z c t) same all),
      )
]
