-- ===== src/Cli/Demo/Steady.antt =====
-- What a turn of a participant that returns keeps of it.
use project_sapphire.Base.{
  ◌≡◌, refl, true, List, Ord, ok, err, inl, inr, if_elim, option_elim, is_some, Result-cases,
}
use project_sapphire.Base.Map.{contains_key}
use project_sapphire.Frost.{Ciphersuite}
use project_sapphire.Chain.Tx.{Tx}
use project_sapphire.Chain.State.{State, DkgCeremony}
use project_sapphire.Node.Signer.{Node}
use project_sapphire.Keygen.Envelope.{CryptoBox}
use project_sapphire.Keygen.Participant.{
  DkgScheme, DkgParticipant, Turn, start_round1, react_round1, participate, into_node,
}
use project_sapphire.Keygen.Steps.{Takes, quiet, noted, seals, finalizes, fails, react_round2-Takes}

module _ {I : Type 0} ⦃o : Ord I⦄ {C : Ciphersuite I} (B : CryptoBox C.Rng) (D : DkgScheme C) where
  open C use {Rng}

  -- The participant turns into a node.
  abbrev pub IsComplete : DkgParticipant B D → Type 0
  IsComplete p = (node : Node C) × (into_node B D p ≡ ok node)

  -- A turn that returns keeps the identifier, and a participant that was complete.
  abbrev pub IsSteady : DkgParticipant B D → Turn B D (List (Tx C)) → Type 0
  IsSteady p (err e, q, _, _) = Unit {0}
  IsSteady p (ok txs, q, _, _) = (q.identifier ≡ p.identifier) × (IsComplete p → IsComplete q)

  Takes-IsSteady :
      (p : DkgParticipant B D) (c : DkgCeremony C) (rng : Rng) (os : B.OsRng)
      (turn : Turn B D (List (Tx C)))
      → Takes B D p c rng os turn
      → IsSteady p turn
  unfolding into_node
  Takes-IsSteady p c rng os turn quiet = (refl, λ h. h)
  Takes-IsSteady p c rng os turn noted = (refl, λ h. h)
  Takes-IsSteady p c rng os turn (seals txs secret rng' os' ready all) = (refl, λ h. h)
  Takes-IsSteady p c rng os turn (finalizes k pkp ready fresh absent) = (refl, λ h. (_, refl))
  Takes-IsSteady p c rng os turn (fails e q rng' os' same) = tt

  start-IsSteady :
      (p : DkgParticipant B D) (c : DkgCeremony C) (rng : Rng) (os : B.OsRng)
      → IsSteady p (start_round1 B D p c rng os)
  unfolding start_round1 into_node
  start-IsSteady p c rng os =
      elim (Result-cases (D.part1 p.identifier c.params.total c.params.threshold rng).0) [
        | inr (e, bad) ↦ rw (bad, start_round1) tt
        | inl ((secret, pkg), good) ↦ rw (good, start_round1) (refl, λ h. h)
      ]

  pub participate-IsSteady :
      (p : DkgParticipant B D) (s : State C) (rng : Rng) (os : B.OsRng)
      → IsSteady p (participate B D p s rng os)
  unfolding participate react_round1 into_node
  participate-IsSteady p s rng os =
      let Steady = IsSteady p in
      if_elim Steady (is_some s.group) (λ over. (refl, λ h. h))
        (λ open_now.
          option_elim Steady s.ceremony (λ without. (refl, λ h. h))
            (λ c at_work.
              if_elim Steady (contains_key p.identifier c.validators)
                (λ known.
                  if_elim Steady p.submitted_r1
                    (λ done. Takes-IsSteady p c rng os _ (react_round2-Takes B D p c rng os))
                    (λ fresh.
                      if_elim Steady (contains_key p.identifier c.round1)
                        (λ there.
                          let noted_p = record p { submitted_r1 = true } in
                          Takes-IsSteady noted_p c rng os _
                            (react_round2-Takes B D noted_p c rng os))
                        (λ absent. start-IsSteady p c rng os)))
                (λ stranger. (refl, λ h. h))))
