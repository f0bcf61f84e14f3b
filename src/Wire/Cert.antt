-- ===== src/Wire/Cert.antt =====
-- Certificates on the wire, and their verification: include/hotstuff/crypto.h, src/crypto.cpp.
use archipelago_hotstuff.Base.{
  ℕ, ◌+◌, ◌%◌, ◌^◌, ◌==◌, ==_iff, Bool-cases, ◌<◌, ◌≡◌, refl, sym, ap, ◌∙◌, Bool, true, false,
  Option, none, some, List, [], ◌∷◌, lookup, assign, lookup-assign, lookup-assign_other,
  Option-cases, inl, inr, subst, ◌≢◌,
}
use archipelago_hotstuff.Crypto.{PartCert, QuorumCert}
use archipelago_hotstuff.Wire.{Bytes, Reader, ◌>>=◌, pure, Wire, ReadsBack, then_read}

module _ (w : Wire) where
  -- `PartCertSecp256k1::serialize` and `unserialize`
  unfoldable pub put_part_cert : PartCert → Bytes → Bytes
  put_part_cert pc rest = w.put_int 32 pc.obj_hash (w.put_sig pc.sig rest)

  unfoldable pub get_part_cert : Reader PartCert
  get_part_cert = do
    obj_hash ← w.get_int 32
    sig ← w.get_sig
    pure (record { obj_hash = obj_hash; sig = sig })

  -- The signatures of the signers from bit `i` on, by the low 16 bits of it; `none` is the exception
  -- of `sigs.at`.
  unfoldable pub put_sigs : ℕ → List Bool → List (ℕ × ℕ) → Bytes → Option Bytes
  put_sigs i [] sigs rest = some rest
  put_sigs i (false ∷ bits) sigs rest = put_sigs (i + 1) bits sigs rest
  put_sigs i (true ∷ bits) sigs rest = elim (lookup (i % 2 ^ 16) sigs) [
    | none ↦ none
    | some sig ↦ elim (put_sigs (i + 1) bits sigs rest) [
      | none ↦ none
      | some bs ↦ some (w.put_sig sig bs)
    ]
  ]

  unfoldable pub put_quorum_cert : QuorumCert → Bytes → Option Bytes
  unfolding put_sigs
  put_quorum_cert qc rest = elim (put_sigs 0 qc.rids qc.sigs rest) [
    | none ↦ none
    | some bs ↦ some (w.put_int 32 qc.obj_hash (w.put_bits qc.rids bs))
  ]

  -- The loop of `unserialize`: `s >> sigs[i]`, with keys of 16 bits.
  unfoldable pub get_sigs : ℕ → List Bool → List (ℕ × ℕ) → Reader (List (ℕ × ℕ))
  get_sigs i [] sigs = pure sigs
  get_sigs i (false ∷ bits) sigs = get_sigs (i + 1) bits sigs
  get_sigs i (true ∷ bits) sigs = do
    sig ← w.get_sig
    get_sigs (i + 1) bits (assign (i % 2 ^ 16) sig sigs)

  unfoldable pub get_quorum_cert : Reader QuorumCert
  unfolding get_sigs
  get_quorum_cert = do
    obj_hash ← w.get_int 32
    rids ← w.get_bits
    sigs ← get_sigs 0 rids []
    pure (record { obj_hash = obj_hash; rids = rids; sigs = sigs })

  module _ (reads : ReadsBack w) where
    -- A partial certificate of a 256-bit hash is read as it was written.
    pub get-put_part_cert :
        (pc : PartCert) (rest : Bytes)
        → pc.obj_hash < 256 ^ 32
        → get_part_cert (put_part_cert pc rest) ≡ some (pc, rest)
    unfolding get_part_cert put_part_cert
    get-put_part_cert pc rest fits =
        then_read (w.get_int 32) _ (reads.int 32 pc.obj_hash (w.put_sig pc.sig rest) fits)
          (then_read w.get_sig _ (reads.sig pc.sig rest) refl)

    -- The signatures that were written are read, and written again as they were.
    get-put_sigs :
        (i : ℕ) (bits : List Bool) (sigs acc : List (ℕ × ℕ)) (rest bs : Bytes)
        → put_sigs i bits sigs rest ≡ some bs
        → (sigs' : List (ℕ × ℕ)) × (get_sigs i bits acc bs ≡ some (sigs', rest))
          × ((j : ℕ) → lookup j acc ≡ lookup j sigs → lookup j sigs' ≡ lookup j sigs)
          × ((more : Bytes) → put_sigs i bits sigs' more ≡ put_sigs i bits sigs more)
    unfolding put_sigs get_sigs
    get-put_sigs i [] sigs acc rest bs e =
        let same : rest ≡ bs = cc in
        (acc, ap (λ x. some (acc, x)) (sym same), (λ j same. same), (λ more. refl))
    get-put_sigs i (false ∷ bits) sigs acc rest bs e =
        let (sigs', r, old, again) = get-put_sigs (i + 1) bits sigs acc rest bs e in
        (sigs', r, old, again)
    get-put_sigs i (true ∷ bits) sigs acc rest bs e =
        elim (Option-cases (lookup (i % 2 ^ 16) sigs)) [
          | inl missing ↦ let x : none ≡ some bs = (rw (missing, put_sigs) at e) in cc
          | inr (sig, found) ↦ elim (Option-cases (put_sigs (i + 1) bits sigs rest)) [
            | inl missing ↦ let x : none ≡ some bs = (rw (found, missing, put_sigs) at e) in cc
            | inr (tail, written) ↦
                let x : some (w.put_sig sig tail) ≡ some bs =
                  (rw (found, written, put_sigs) at e) in
                let same : w.put_sig sig tail ≡ bs = cc in
                let (sigs', r, old, again) =
                  get-put_sigs (i + 1) bits sigs (assign (i % 2 ^ 16) sig acc) rest tail written in
                let now = lookup-assign (i % 2 ^ 16) sig acc ∙ sym found in
                let here = old (i % 2 ^ 16) now ∙ found in
                (
                  sigs',
                  subst
                      (λ b.
                        (w.get_sig >>= λ g. get_sigs (i + 1) bits (assign (i % 2 ^ 16) g acc)) b
                        ≡ some (sigs', rest))
                      same (then_read w.get_sig _ (reads.sig sig tail) r),
                  (λ j same. elim (Bool-cases (i % 2 ^ 16 == j)) [
                    | inl y ↦
                        let k = (==_iff (i % 2 ^ 16) j).0 y in
                        subst (λ q. lookup q sigs' ≡ lookup q sigs) k (old (i % 2 ^ 16) now)
                    | inr n ↦
                        let ne : i % 2 ^ 16 ≢ j = λ y. let z = (==_iff (i % 2 ^ 16) j).1 y in cc in
                        old j (lookup-assign_other (i % 2 ^ 16) j sig acc ne ∙ same)
                  ]),
                  (λ more.
                      rw (found, here, put_sigs)
                        (ap
                          (λ o. elim o as (λ _. Option Bytes) [
                            | none ↦ none
                            | some b ↦ some (w.put_sig sig b)
                          ])
                          (again more))),
                )
          ]
        ]

    -- A quorum certificate of a 256-bit hash that is written is read with the same hash and the same
    -- signers, and is written again to the same bytes.
    pub get-put_quorum_cert :
        (qc : QuorumCert) (rest bs : Bytes)
        → qc.obj_hash < 256 ^ 32
        → put_quorum_cert qc rest ≡ some bs
        → (qc' : QuorumCert) × (get_quorum_cert bs ≡ some (qc', rest))
          × (qc'.obj_hash ≡ qc.obj_hash)
          × (qc'.rids ≡ qc.rids)
          × ((more : Bytes) → put_quorum_cert qc' more ≡ put_quorum_cert qc more)
    unfolding put_quorum_cert get_quorum_cert
    get-put_quorum_cert qc rest bs fits e = elim (Option-cases (put_sigs 0 qc.rids qc.sigs rest)) [
      | inl missing ↦ let x : none ≡ some bs = (rw (missing, put_quorum_cert) at e) in cc
      | inr (tail, written) ↦
          let x : some (w.put_int 32 qc.obj_hash (w.put_bits qc.rids tail)) ≡ some bs =
            (rw (written, put_quorum_cert) at e) in
          let same : w.put_int 32 qc.obj_hash (w.put_bits qc.rids tail) ≡ bs = cc in
          let (sigs', r, _, again) = get-put_sigs 0 qc.rids qc.sigs [] rest tail written in
          let qc' : QuorumCert = record qc { sigs = sigs' } in
          (
            qc',
            subst (λ b. get_quorum_cert b ≡ some (qc', rest)) same
                (then_read (w.get_int 32) _
                  (reads.int 32 qc.obj_hash (w.put_bits qc.rids tail) fits)
                  (then_read w.get_bits _ (reads.bits qc.rids tail)
                    (then_read (get_sigs 0 qc.rids []) _ r refl))),
            refl,
            refl,
            (λ more.
                ap
                  (λ o. elim o as (λ _. Option Bytes) [
                    | none ↦ none
                    | some b ↦ some (w.put_int 32 qc.obj_hash (w.put_bits qc.rids b))
                  ])
                  (again more)),
          )
    ]
