-- ===== src/Delivery/Requests.antt =====
-- The requests for a block among the messages of a replica.
use archipelago_hotstuff.Base.{
  ℕ, ◌+◌, ◌≡◌, refl, sym, ap, ◌∙◌, Bool, false, ◌&&◌, List, [], ◌∷◌, arith, ◌==◌, ==_iff, ==_refl,
  Bool-cases, inl, inr, if◌then◌else◌, member, Distinct,
}
use archipelago_hotstuff.Delivery.State.{Outgoing, req_block, resp_block, HotStuffBase}
use archipelago_hotstuff.Delivery.Fetch.{send_fetch, send_all_fetch}

-- The message is a request for the block with hash `h`.
abbrev asks : (h : ℕ) → Outgoing → Bool
asks h (req_block []) = false
asks h (req_block (k ∷ [])) = k == h
asks h (req_block (k ∷ j ∷ hs)) = false
asks h (resp_block ps) = false

-- How often replica `x` was asked for the block with hash `h`.
abbrev pub requests : (h x : ℕ) → List (ℕ × Outgoing) → ℕ
requests h x [] = 0
requests h x ((y, o) ∷ ms) = (if y == x && asks h o then 1 else 0) + requests h x ms

pub send_fetch-requests :
    (h x y : ℕ) (n : HotStuffBase)
    → requests h x (send_fetch y h n).sent ≡ (if y == x then 1 else 0) + requests h x n.sent
unfolding send_fetch
send_fetch-requests h x y n = let e = ==_refl h in ground arith

pub send_all-requests :
    (h x : ℕ) (rs : List ℕ) (n : HotStuffBase)
    → Distinct rs
    → requests h x (send_all_fetch h rs n).sent
      ≡ (if member x rs then 1 else 0) + requests h x n.sent
unfolding send_all_fetch
send_all-requests h x [] n d = omega arith
send_all-requests h x (r ∷ rs) n (new, d) =
    let rest = send_all-requests h x rs (send_fetch r h n) d in
    let one = send_fetch-requests h x r n in
    elim (Bool-cases (r == x)) [
      | inl e ↦
          let off : member x rs ≡ false = ap (λ z. member z rs) (sym ((==_iff r x).0 e)) ∙ new in
          let none_more : ◌≡◌ {A = ℕ} (if member x rs then 1 else 0) 0 = rw off refl in
          let once : ◌≡◌ {A = ℕ} (if r == x then 1 else 0) 1 = rw e refl in
          let both : ◌≡◌ {A = ℕ} (if member x (r ∷ rs) then 1 else 0) 1 = rw e refl in
          omega (arith, rest, one, none_more, once, both)
      | inr e ↦
          let other : ◌≡◌ {A = ℕ} (if r == x then 1 else 0) 0 = rw e refl in
          let both : ◌≡◌ {A = ℕ} (if member x (r ∷ rs) then 1 else 0)
              (if member x rs then 1 else 0) =
            rw e refl in
          omega (arith, rest, one, other, both)
    ]
