-- ===== src/Verify/Quorum.antt =====
-- What a verified certificate holds.
use archipelago_hotstuff.Base.{
  ℕ, ◌+◌, ◌≤◌, ◌<◌, ◌≡◌, refl, ap, ◌∙◌, subst, Bool, true, false, Option, none, some, List, [], ◌∷◌,
  arith, ltb, Bool-cases, Option-cases, inl, inr, length, All, assign, Unique, Unique-assign,
  All-assign, lookup, ◌⊎◌, ◌%◌, ◌^◌,
}
use archipelago_hotstuff.Crypto.{Library, QuorumCert}
use archipelago_hotstuff.Entity.{ReplicaConfig, ReplicaInfo, get_info}
use archipelago_hotstuff.Verify.{
  verify_at, verify_parts, verify_quorum, task_results, verify_quorum_async, all_true, sig_at,
}
use archipelago_hotstuff.Wire.{Bytes, Wire, read_then}
use archipelago_hotstuff.Wire.Cert.{get_sigs, get_quorum_cert}

-- Bit `j` is set, where the bits begin at `i`.
abbrev IsSigner : (i : ℕ) → List Bool → (j : ℕ) → Type 0
IsSigner i [] j = ⊥
IsSigner i (false ∷ bits) j = IsSigner (i + 1) bits j
IsSigner i (true ∷ bits) j = (i ≡ j) ⊎ IsSigner (i + 1) bits j

module _ (lib : Library) (no_sig : ℕ) (config : ReplicaConfig) where
  -- Replica `r` is known, and its signature among `sigs` is one of `h`.
  abbrev pub IsValidPart : (obj_hash : ℕ) → List (ℕ × ℕ) → (r : ℕ) → Type 0
  IsValidPart h sigs r =
      (info : ReplicaInfo) × (get_info config (r % 2 ^ 16) ≡ some info)
      × (lib.ecdsa_verify (sig_at no_sig r sigs) h info.pubkey ≡ true)

  verify_parts-IsValidPart :
      (h i : ℕ) (bits : List Bool) (sigs : List (ℕ × ℕ))
      → verify_parts lib no_sig config h i bits sigs ≡ some true
      → (j : ℕ) → IsSigner i bits j
      → IsValidPart h sigs j
  unfolding verify_parts verify_at
  verify_parts-IsValidPart h i [] sigs e j x = absurd x
  verify_parts-IsValidPart h i (false ∷ bits) sigs e j x =
      verify_parts-IsValidPart h (i + 1) bits sigs e j x
  verify_parts-IsValidPart h i (true ∷ bits) sigs e j x =
      elim (Option-cases (get_info config (i % 2 ^ 16))) [
        | inl missing ↦
            let x : none ≡ some true = (rw (missing, verify_parts, verify_at) at e) in cc
        | inr (info, known) ↦
            elim (Bool-cases (lib.ecdsa_verify (sig_at no_sig i sigs) h info.pubkey)) [
              | inr bad ↦
                  let x : some false ≡ some true =
                    (rw (known, bad, verify_parts, verify_at) at e) in
                  cc
              | inl good ↦ elim x [
                | inl here ↦ subst (IsValidPart h sigs) here (info, known, good)
                | inr later ↦
                    verify_parts-IsValidPart h (i + 1) bits sigs
                      (rw (known, good, verify_parts, verify_at) at e) j later
              ]
            ]
      ]

  one_task :
      (h i : ℕ) (bits : List Bool) (sigs : List (ℕ × ℕ)) (b : Bool) (rest : List Bool)
      → verify_at lib no_sig config h i sigs ≡ some b
      → verify_parts lib no_sig config h (i + 1) bits sigs ≡ some (all_true lib no_sig config rest)
      → verify_parts lib no_sig config h i (true ∷ bits) sigs
        ≡ some (all_true lib no_sig config (b ∷ rest))
  unfolding verify_parts
  one_task h i bits sigs true rest known more = rw (known, verify_parts) more
  one_task h i bits sigs false rest known more = rw (known, verify_parts) refl

  -- The background tasks give the answer of the loop.
  task_results-verify_parts :
      (h i : ℕ) (bits : List Bool) (sigs : List (ℕ × ℕ)) (bs : List Bool)
      → task_results lib no_sig config h i bits sigs ≡ some bs
      → verify_parts lib no_sig config h i bits sigs ≡ some (all_true lib no_sig config bs)
  unfolding task_results verify_parts
  task_results-verify_parts h i [] sigs bs e =
      let x : [] ≡ bs = cc in ap (λ r. some (all_true lib no_sig config r)) x
  task_results-verify_parts h i (false ∷ bits) sigs bs e =
      task_results-verify_parts h (i + 1) bits sigs bs e
  task_results-verify_parts h i (true ∷ bits) sigs bs e =
      elim (Option-cases (verify_at lib no_sig config h i sigs)) [
        | inl missing ↦ let x : none ≡ some bs = (rw (missing, task_results) at e) in cc
        | inr (b, known) ↦
            elim (Option-cases (task_results lib no_sig config h (i + 1) bits sigs)) [
              | inl missing ↦
                  let x : none ≡ some bs = (rw (known, missing, task_results) at e) in cc
              | inr (rest, more) ↦
                  let x : some (b ∷ rest) ≡ some bs = (rw (known, more, task_results) at e) in
                  let same : b ∷ rest ≡ bs = cc in
                  one_task h i bits sigs b rest known
                    (task_results-verify_parts h (i + 1) bits sigs rest more)
                  ∙ ap (λ r. some (all_true lib no_sig config r)) same
            ]
      ]

  -- Whatever a pool of threads answers on a certificate, the direct verification answers.
  verify_quorum_async-verify_quorum :
      (qc : QuorumCert) (b : Bool)
      → verify_quorum_async lib no_sig config qc ≡ some b
      → verify_quorum lib no_sig config qc ≡ some b
  unfolding verify_quorum_async verify_quorum
  verify_quorum_async-verify_quorum qc b e =
      elim (Bool-cases (ltb (length qc.sigs) config.nmajority)) [
        | inl few ↦ rw few (rw (few, verify_quorum_async) at e)
        | inr enough ↦
            elim (Option-cases (task_results lib no_sig config qc.obj_hash 0 qc.rids qc.sigs)) [
              | inl missing ↦
                  let x : none ≡ some b = (rw (enough, missing, verify_quorum_async) at e) in cc
              | inr (bs, done) ↦ rw enough (
                  task_results-verify_parts qc.obj_hash 0 qc.rids qc.sigs bs done
                  ∙ (rw (enough, done, verify_quorum_async) at e))
            ]
      ]

module _ (w : Wire) where
  -- The signatures of a certificate that was read have different keys, each of a signer.
  get_sigs-signers :
      (P : ℕ → Type 0) (i : ℕ) (bits : List Bool) (acc sigs : List (ℕ × ℕ)) (bs rest : Bytes)
      → ((j : ℕ) → IsSigner i bits j → P (j % 2 ^ 16))
      → Unique acc
      → All (λ e. P e.0) acc
      → get_sigs w i bits acc bs ≡ some (sigs, rest)
      → Unique sigs × All (λ e. P e.0) sigs
  unfolding get_sigs
  get_sigs-signers P i [] acc sigs bs rest signs u a e =
      let same : acc ≡ sigs =
        ap
          (λ (p : Option (List (ℕ × ℕ) × Bytes)). elim p as (λ _. List (ℕ × ℕ)) [
            | none ↦ acc
            | some r ↦ r.0
          ])
          e in
      subst (λ m. Unique m × All (λ e. P e.0) m) same (u, a)
  get_sigs-signers P i (false ∷ bits) acc sigs bs rest signs u a e =
      get_sigs-signers P (i + 1) bits acc sigs bs rest signs u a e
  get_sigs-signers P i (true ∷ bits) acc sigs bs rest signs u a e =
      let (sig, left, read, more) =
        read_then w.get_sig (λ g. get_sigs w (i + 1) bits (assign (i % 2 ^ 16) g acc)) e in
      get_sigs-signers P (i + 1) bits (assign (i % 2 ^ 16) sig acc) sigs left rest
        (λ j x. signs j (inr x)) (Unique-assign (i % 2 ^ 16) sig acc u)
        (All-assign (λ k v. P k) (i % 2 ^ 16) sig acc (signs i (inl refl)) a) more

  -- A certificate that was read from the network and that passes its verification has signatures of
  -- at least nmajority different replicas, each one known, with a valid signature of the hash.
  pub verify_quorum-ValidParts :
      (lib : Library) (no_sig : ℕ) (config : ReplicaConfig) (bs rest : Bytes) (qc : QuorumCert)
      → get_quorum_cert w bs ≡ some (qc, rest)
      → verify_quorum lib no_sig config qc ≡ some true
      → (config.nmajority ≤ length qc.sigs)
        × Unique qc.sigs
        × All (λ e. (e.0 < 2 ^ 16) × IsValidPart lib no_sig config qc.obj_hash qc.sigs e.0) qc.sigs
  unfolding get_quorum_cert verify_quorum sig_at
  verify_quorum-ValidParts lib no_sig config bs rest qc read ok =
      elim (Bool-cases (ltb (length qc.sigs) config.nmajority)) [
        | inl few ↦ let x : some false ≡ some true = (rw (few, verify_quorum) at ok) in cc
        | inr enough ↦
            let (h, left1, _, e1) = read_then (w.get_int 32) _ read in
            let (rids, left2, _, e2) = read_then w.get_bits _ e1 in
            let (sigs, left3, gets, e3) = read_then (get_sigs w 0 rids []) _ e2 in
            let same : record { obj_hash = h; rids = rids; sigs = sigs } ≡ qc =
              ap (λ o. elim o as (λ _. QuorumCert) [ none ↦ qc | some r ↦ r.0 ]) e3 in
            let parts =
              verify_parts-IsValidPart lib no_sig config qc.obj_hash 0 qc.rids qc.sigs
                (rw (enough, verify_quorum) at ok) in
            let P : ℕ → Type 0 =
              λ k. (k < 2 ^ 16) × IsValidPart lib no_sig config qc.obj_hash qc.sigs k in
            let (u, a) =
              get_sigs-signers P 0 rids [] sigs left2 left3
                (λ j x.
                  (omega arith, low_bits j (parts j (subst (λ q. IsSigner 0 q.rids j) same x))))
                tt tt gets in
            let (different, valid) =
              subst (λ q. Unique q.sigs × All (λ e. P e.0) q.sigs) same (u, a) in
            (ground (arith, enough), different, valid)
      ]
    where
      low_bits :
          (j : ℕ)
          → IsValidPart lib no_sig config qc.obj_hash qc.sigs j
          → IsValidPart lib no_sig config qc.obj_hash qc.sigs (j % 2 ^ 16)
      low_bits j p =
          let (info, known, good) = p in
          let e : j % 2 ^ 16 ≡ (j % 2 ^ 16) % 2 ^ 16 = omega arith in
          (
            info,
            subst (λ k. get_info config k ≡ some info) e known,
            subst
                (λ k.
                  lib.ecdsa_verify
                    (elim (lookup k qc.sigs) as (λ _. ℕ) [ none ↦ no_sig | some sig ↦ sig ])
                    qc.obj_hash info.pubkey
                  ≡ true)
                e good,
          )
