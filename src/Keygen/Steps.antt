-- ===== src/Keygen/Steps.antt =====
-- What a participant may do in rounds 2 and 3 of a ceremony, as a relation.
use project_sapphire.Base.{
  ◌≡◌, refl, true, false, not, Option, none, some, List, [], ◌∷◌, ◌++◌, Ord, ok, err, inl, inr,
  if_elim, option_elim, Option-cases, Result-cases, ◌&&◌, pair_ord, arith, subst,
}
use project_sapphire.Base.Map.{Map, get, contains_key}
use project_sapphire.Base.Map.Laws.{contains_of_get}
use project_sapphire.Frost.{Ciphersuite}
use project_sapphire.Chain.Tx.{Tx, dkg_round2, dkg_finalize}
use project_sapphire.Chain.State.{DkgCeremony, r1_complete, r2_complete}
use project_sapphire.Node.Gate.{All, All-append}
use project_sapphire.Keygen.Envelope.{CryptoBox, seal_envelope}
use project_sapphire.Keygen.Participant.{
  DkgScheme, DkgError, DkgParticipant, Turn, seal_all, finish_round2, start_round2, open_all,
  start_finalize, react_finalize, react_round2, others,
}

module _ {I : Type 0} ⦃o : Ord I⦄ {C : Ciphersuite I} (B : CryptoBox C.Rng) (D : DkgScheme C) where
  open C use {KeyPackage, PublicKeyPackage, Rng}

  -- An envelope from this participant to a validator of the ceremony.
  abbrev pub IsEnvelope : I → DkgCeremony C → Tx C → Type 0
  IsEnvelope me c (dkg_round2 from to sealed) = (from ≡ me) × (contains_key to c.validators ≡ true)
  IsEnvelope me c _ = ⊥

  -- An error changes no flag and no derived key.
  pub record IsSameBut (p q : DkgParticipant B D) : Type 0 where
    pub same_identifier : q.identifier ≡ p.identifier
    pub same_r1 : q.submitted_r1 ≡ p.submitted_r1
    pub same_r2 : q.submitted_r2 ≡ p.submitted_r2
    pub same_finalize : q.submitted_finalize ≡ p.submitted_finalize

  pub data Takes (p : DkgParticipant B D) (c : DkgCeremony C) (rng : Rng) (os : B.OsRng)
      : Turn B D (List (Tx C)) → Type 0 where
    quiet : Takes p c rng os (ok [], p, rng, os)
    noted : Takes p c rng os (ok [], record p { submitted_finalize = true }, rng, os)
    seals :
        (txs : List (Tx C)) (secret : D.Secret2) (rng' : Rng) (os' : B.OsRng)
        → r1_complete c ≡ true
        → All (IsEnvelope p.identifier c) txs
        → Takes p c rng os (
          ok txs,
          record p { secret_r1 = none; secret_r2 = some secret; submitted_r2 = true },
          rng',
          os',
        )
    finalizes :
        (k : KeyPackage) (pkp : PublicKeyPackage)
        → r2_complete c ≡ true
        → p.submitted_finalize ≡ false
        → contains_key p.identifier c.finalize ≡ false
        → Takes p c rng os (
          ok (dkg_finalize p.identifier pkp ∷ []),
          record p {
            secret_r2 = none;
            key_package = some k;
            public_key_package = some pkp;
            submitted_finalize = true;
          },
          rng,
          os,
        )
    fails :
        (e : DkgError) (q : DkgParticipant B D) (rng' : Rng) (os' : B.OsRng)
        → IsSameBut p q
        → Takes p c rng os (err e, q, rng', os')

  seal_all-AllEnvelope :
      (me : I) (c : DkgCeremony C) (sent : Map I D.Round2Package) (out txs : List (Tx C))
      (rng : Rng) (os : B.OsRng)
      → All (IsEnvelope me c) out
      → (seal_all B D me c sent out rng os).0 ≡ ok txs
      → All (IsEnvelope me c) txs
  unfolding seal_all
  seal_all-AllEnvelope me c [] out txs rng os all h =
      subst (All (IsEnvelope me c)) (ground arith) all
  seal_all-AllEnvelope me c ((to, pkg) ∷ sent) out txs rng os all h =
      elim (Option-cases (get to c.validators)) [
        | inl missing ↦ absurd (ground (arith, rw (missing, seal_all) at h))
        | inr (key, known) ↦ elim (Result-cases (D.to_vec pkg)) [
          | inr (e, bad) ↦ absurd (ground (arith, rw (known, seal_all, bad) at h))
          | inl (text, encoded) ↦
              let sealed = seal_envelope B rng os key text in
              seal_all-AllEnvelope me c sent (out ++ (dkg_round2 me to sealed.0 ∷ [])) txs sealed.1
                sealed.2
                (All-append (IsEnvelope me c) out (dkg_round2 me to sealed.0 ∷ []) all
                  ((refl, contains_of_get to c.validators key known), tt))
                (rw (known, seal_all, encoded) at h)
        ]
      ]

  -- Without a trace in the flags: secrets may be gone.
  unflagged :
      (p : DkgParticipant B D) (a : Option D.Secret1) (b : Option D.Secret2)
      → IsSameBut p (record p { secret_r1 = a; secret_r2 = b })
  unflagged p a b = record {
    same_identifier = refl;
    same_r1 = refl;
    same_r2 = refl;
    same_finalize = refl;
  }

  round2-Takes :
      (p : DkgParticipant B D) (c : DkgCeremony C) (rng : Rng) (os : B.OsRng)
      → r1_complete c ≡ true
      → Takes p c rng os (start_round2 B D p c rng os)
  unfolding start_round2 finish_round2
  round2-Takes p c rng os ready =
      option_elim (Takes p c rng os) p.secret_r1
        (λ missing. fails _ p rng os (unflagged p p.secret_r1 p.secret_r2))
        (λ secret there. elim (Result-cases (D.part2 secret (others B D p.identifier c.round1))) [
          | inr (e, bad) ↦ rw bad (fails _ _ rng os (unflagged p none p.secret_r2))
          | inl ((next, sent), good) ↦
              let loop = seal_all B D p.identifier c sent [] rng os in
              elim (Result-cases loop.0) [
                | inr (e, bad) ↦
                    rw (good, finish_round2, bad)
                      (fails e _ loop.1 loop.2 (unflagged p none (some next)))
                | inl (txs, pushed) ↦
                    rw (good, finish_round2, pushed)
                      (seals txs next loop.1 loop.2 ready
                        (seal_all-AllEnvelope p.identifier c sent [] txs rng os tt pushed))
              ]
        ])

  finalize-Takes :
      (p : DkgParticipant B D) (c : DkgCeremony C) (rng : Rng) (os : B.OsRng)
      → r2_complete c ≡ true
      → p.submitted_finalize ≡ false
      → contains_key p.identifier c.finalize ≡ false
      → Takes p c rng os (start_finalize B D p c rng os)
  unfolding start_finalize
  finalize-Takes p c rng os ready fresh absent =
      elim (Result-cases (open_all B D p.identifier p.enc_secret c.round2 [])) [
        | inr (e, bad) ↦
            rw (bad, start_finalize) (fails e p rng os (unflagged p p.secret_r1 p.secret_r2))
        | inl (received, opened) ↦
            rw (opened, start_finalize)
              (option_elim (Takes p c rng os) p.secret_r2
                (λ missing. fails _ p rng os (unflagged p p.secret_r1 p.secret_r2))
                (λ secret there.
                  elim (Result-cases (D.part3 secret (others B D p.identifier c.round1) received)) [
                    | inr (e, bad) ↦ rw bad (fails _ _ rng os (unflagged p p.secret_r1 none))
                    | inl ((k, pkp), good) ↦ rw good (finalizes k pkp ready fresh absent)
                  ]))
      ]

  react_finalize-Takes :
      (p : DkgParticipant B D) (c : DkgCeremony C) (rng : Rng) (os : B.OsRng)
      → Takes p c rng os (react_finalize B D p c rng os)
  unfolding react_finalize
  react_finalize-Takes p c rng os =
      if_elim (Takes p c rng os) (r2_complete c && not p.submitted_finalize)
        (λ open_now.
          if_elim (Takes p c rng os) (contains_key p.identifier c.finalize) (λ there. noted)
            (λ absent.
              finalize-Takes p c rng os (ground (arith, open_now)) (ground (arith, open_now))
                absent))
        (λ closed. quiet)

  pub react_round2-Takes :
      (p : DkgParticipant B D) (c : DkgCeremony C) (rng : Rng) (os : B.OsRng)
      → Takes p c rng os (react_round2 B D p c rng os)
  unfolding react_round2
  react_round2-Takes p c rng os =
      if_elim (Takes p c rng os) (not (r1_complete c)) (λ waits. quiet)
        (λ ready.
          if_elim (Takes p c rng os) p.submitted_r2 (λ done. react_finalize-Takes p c rng os)
            (λ fresh. round2-Takes p c rng os (ground (arith, ready))))
