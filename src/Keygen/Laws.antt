-- ===== src/Keygen/Laws.antt =====
-- What a participant's transactions are worth: to the chain, and to the participant itself.
use project_sapphire.Base.{
  ◌≡◌, ◌⊎◌, refl, true, false, none, some, List, [], ◌∷◌, Ord, pair_ord, ok, err, if◌then◌else◌,
  inl, inr, if_elim, option_elim, Bool-cases, Result-cases, is_some, subst, sym,
}
use project_sapphire.Base.Map.{contains_key, insert}
use project_sapphire.Frost.{Ciphersuite}
use project_sapphire.Chain.Tx.{Tx, dkg_round1, dkg_round2, dkg_finalize}
use project_sapphire.Chain.State.{
  State, DkgCeremony, r1_complete, r2_complete, finalize_complete, pkp_mismatch,
}
use project_sapphire.Chain.Apply.{
  apply_tx, apply_dkg_round1, apply_dkg_finalize, agrees_with_first, promote,
}
use project_sapphire.Node.Once.{sent}
use project_sapphire.Node.Gate.{All}
use project_sapphire.Node.Signer.{new_node}
use project_sapphire.Keygen.Envelope.{CryptoBox}
use project_sapphire.Keygen.Participant.{
  DkgScheme, DkgParticipant, Turn, start_round1, react_round1, participate, into_node,
}
use project_sapphire.Keygen.Steps.{
  IsEnvelope, Takes, quiet, noted, seals, finalizes, fails, react_round2-Takes,
}

module _ {I : Type 0} ⦃o : Ord I⦄ {C : Ciphersuite I} where
  accepted_round1 :
      (s : State C) (c : DkgCeremony C) (me : I) (pkg : C.Round1Package)
      → s.ceremony ≡ some c
      → contains_key me c.validators ≡ true
      → contains_key me c.round1 ≡ false
      → (t : State C) × (apply_tx s (dkg_round1 me pkg) ≡ ok t)
  unfolding apply_tx apply_dkg_round1
  accepted_round1 s c me pkg at_work known fresh = (
    record s { ceremony = some (record c { round1 = insert me pkg c.round1 }) },
    rw (at_work, known, fresh),
  )

  accepted_finalize :
      (s : State C) (c : DkgCeremony C) (me : I) (pkp : C.PublicKeyPackage)
      → s.ceremony ≡ some c
      → contains_key me c.validators ≡ true
      → r2_complete c ≡ true
      → contains_key me c.finalize ≡ false
      → ((t : State C) × (apply_tx s (dkg_finalize me pkp) ≡ ok t))
        ⊎ (apply_tx s (dkg_finalize me pkp) ≡ err (pkp_mismatch (C.debug me)))
  unfolding apply_tx apply_dkg_finalize
  accepted_finalize s c me pkp at_work known ready fresh =
      let next : DkgCeremony C = record c { finalize = insert me pkp c.finalize } in
      elim (Bool-cases (agrees_with_first C pkp c.finalize)) [
        | inl agrees ↦ inl (
          (if finalize_complete next
              then promote s next next.finalize
              else record s { ceremony = some next }),
          rw (at_work, ready, known, fresh, agrees),
        )
        | inr differs ↦ inr (rw (at_work, ready, known, fresh, differs))
      ]

  -- In this state of the chain a round-1 package is accepted, an envelope goes to a validator once
  -- round 1 is complete, and a final package is accepted unless it disagrees with those before it.
  abbrev pub IsTimely : State C → I → Tx C → Type 0
  IsTimely s me (dkg_round1 from pkg) =
      (from ≡ me) × (t : State C) × (apply_tx s (dkg_round1 from pkg) ≡ ok t)
  IsTimely s me (dkg_round2 from to sealed) =
      (from ≡ me)
      × (c : DkgCeremony C) × (s.ceremony ≡ some c)
      × (r1_complete c ≡ true)
      × (contains_key from c.validators ≡ true)
      × (contains_key to c.validators ≡ true)
  IsTimely s me (dkg_finalize from pkp) =
      (from ≡ me)
      × (((t : State C) × (apply_tx s (dkg_finalize from pkp) ≡ ok t))
          ⊎ (apply_tx s (dkg_finalize from pkp) ≡ err (pkp_mismatch (C.debug from))))
  IsTimely s me _ = ⊥

module _ {I : Type 0} ⦃o : Ord I⦄ {C : Ciphersuite I} (B : CryptoBox C.Rng) (D : DkgScheme C) where
  open C use {Rng, KeyPackage}

  envelopes-IsTimely :
      (s : State C) (c : DkgCeremony C) (me : I) (txs : List (Tx C))
      → s.ceremony ≡ some c
      → r1_complete c ≡ true
      → contains_key me c.validators ≡ true
      → All (IsEnvelope B D me c) txs
      → All (IsTimely s me) txs
  envelopes-IsTimely s c me [] at_work ready known all = tt
  envelopes-IsTimely s c me (dkg_round2 from to sealed ∷ txs) at_work ready known
        ((own, there), all) =
      (
        (
          own,
          c,
          at_work,
          ready,
          subst (λ i. contains_key i c.validators ≡ true) (sym own) known,
          there,
        ),
        envelopes-IsTimely s c me txs at_work ready known all,
      )
  envelopes-IsTimely s c me (_ ∷ txs) at_work ready known all = absurd all.0

  -- The node that a final package is good for.
  abbrev pub IsBacked : DkgParticipant B D → Tx C → Type 0
  IsBacked q (dkg_finalize from pkp) =
      (k : KeyPackage) × (into_node B D q
        ≡ ok (new_node C (record { key_package = k; public_key_package = pkp })))
  IsBacked q _ = Unit {0}

  envelopes-IsBacked :
      (q : DkgParticipant B D) (c : DkgCeremony C) (me : I) (txs : List (Tx C))
      → All (IsEnvelope B D me c) txs
      → All (IsBacked q) txs
  envelopes-IsBacked q c me [] all = tt
  envelopes-IsBacked q c me (dkg_round2 from to sealed ∷ txs) (_, all) =
      (tt, envelopes-IsBacked q c me txs all)
  envelopes-IsBacked q c me (_ ∷ txs) all = absurd all.0

  Takes-IsTimely :
      (s : State C) (p : DkgParticipant B D) (c : DkgCeremony C) (rng : Rng) (os : B.OsRng)
      (turn : Turn B D (List (Tx C)))
      → s.ceremony ≡ some c
      → contains_key p.identifier c.validators ≡ true
      → Takes B D p c rng os turn
      → All (IsTimely s p.identifier) (sent turn.0) × All (IsBacked turn.1) (sent turn.0)
  unfolding into_node
  Takes-IsTimely s p c rng os turn at_work known quiet = (tt, tt)
  Takes-IsTimely s p c rng os turn at_work known noted = (tt, tt)
  Takes-IsTimely s p c rng os turn at_work known (seals txs secret rng' os' ready all) = (
    envelopes-IsTimely s c p.identifier txs at_work ready known all,
    envelopes-IsBacked (record p { secret_r1 = none; secret_r2 = some secret; submitted_r2 = true })
        c p.identifier txs all,
  )
  Takes-IsTimely s p c rng os turn at_work known (finalizes k pkp ready fresh absent) = (
    ((refl, accepted_finalize s c p.identifier pkp at_work known ready absent), tt),
    ((k, refl), tt),
  )
  Takes-IsTimely s p c rng os turn at_work known (fails e q rng' os' same) = (tt, tt)

  -- What a turn emits is timely, and each final package in it is backed by the participant.
  abbrev pub IsFit : State C → I → Turn B D (List (Tx C)) → Type 0
  IsFit s me turn = All (IsTimely s me) (sent turn.0) × All (IsBacked turn.1) (sent turn.0)

  start-IsFit :
      (s : State C) (p : DkgParticipant B D) (c : DkgCeremony C) (rng : Rng) (os : B.OsRng)
      → s.ceremony ≡ some c
      → contains_key p.identifier c.validators ≡ true
      → contains_key p.identifier c.round1 ≡ false
      → IsFit s p.identifier (start_round1 B D p c rng os)
  unfolding start_round1
  start-IsFit s p c rng os at_work known absent =
      elim (Result-cases (D.part1 p.identifier c.params.total c.params.threshold rng).0) [
        | inr (e, bad) ↦ rw (bad, start_round1) (tt, tt)
        | inl ((secret, pkg), good) ↦
            let (t, applied) = accepted_round1 s c p.identifier pkg at_work known absent in
            rw (good, start_round1) (((refl, t, applied), tt), (tt, tt))
      ]

  round1-IsFit :
      (s : State C) (p : DkgParticipant B D) (c : DkgCeremony C) (rng : Rng) (os : B.OsRng)
      → s.ceremony ≡ some c
      → contains_key p.identifier c.validators ≡ true
      → IsFit s p.identifier (react_round1 B D p c rng os)
  unfolding react_round1
  round1-IsFit s p c rng os at_work known =
      let noted : DkgParticipant B D = record p { submitted_r1 = true } in
      if_elim (IsFit s p.identifier) p.submitted_r1
        (λ done. Takes-IsTimely s p c rng os _ at_work known (react_round2-Takes B D p c rng os))
        (λ fresh.
          if_elim (IsFit s p.identifier) (contains_key p.identifier c.round1)
            (λ there.
              Takes-IsTimely s noted c rng os _ at_work known
                (react_round2-Takes B D noted c rng os))
            (λ absent. start-IsFit s p c rng os at_work known absent))

  -- All that a participant emits is timely in the state of the chain that it sees: a round-1
  -- package is accepted, an envelope goes to a validator once round 1 is complete, and a final
  -- package is accepted unless it disagrees with those before it. With a final package the
  -- participant has the key share for it, and turns into a node of that share and package.
  pub participate-IsFit :
      (p : DkgParticipant B D) (s : State C) (rng : Rng) (os : B.OsRng)
      → IsFit s p.identifier (participate B D p s rng os)
  unfolding participate
  participate-IsFit p s rng os =
      if_elim (IsFit s p.identifier) (is_some s.group) (λ over. (tt, tt))
        (λ open_now.
          option_elim (IsFit s p.identifier) s.ceremony (λ without. (tt, tt))
            (λ c at_work.
              if_elim (IsFit s p.identifier) (contains_key p.identifier c.validators)
                (λ known. round1-IsFit s p c rng os at_work known) (λ stranger. (tt, tt))))
