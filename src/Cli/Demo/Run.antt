-- ===== src/Cli/Demo/Run.antt =====
-- The releases of one run of the demo, from the randomizer on, and what its end reports.
use project_sapphire.Base.{
  ℕ, ◌≡◌, ◌≤◌, some, List, [], Ord, ok, inl, inr, EndsIn, >>=-EndsIn, EndsIn-widen, EndsIn-run,
  ◌>>=◌, ◌>>◌,
}
use project_sapphire.Core.{new_params, MpcParams, uuid_ord}
use project_sapphire.Frost.{Ciphersuite, IsLawful}
use project_sapphire.Chain.State.{GroupConfig}
use project_sapphire.Chain.Sim.{ChainSim}
use project_sapphire.Node.Signer.{Node}
use project_sapphire.Keygen.Envelope.{CryptoBox}
use project_sapphire.Keygen.Participant.{DkgScheme, DkgParticipant}
use project_sapphire.Cli.Demo.{
  Libraries, Halt, new_uuid, Released, form_group, into_nodes, authorize_release, reject_tampered,
}
use project_sapphire.Cli.Demo.Forming.{IsExpected}
use project_sapphire.Cli.Demo.Ready.{IsReady}
use project_sapphire.Cli.Demo.Safe.{IsAuthorized, IsReleased, authorize_release-IsExpected}
use project_sapphire.Cli.Demo.Refused.{
  demo_policy, Decodes, IsExpectedOr, IsStale, reject_tampered-IsExpectedOr,
}

module _ {I : Type 0} ⦃o : Ord I⦄ {C : Ciphersuite I} (B : CryptoBox C.Rng) (D : DkgScheme C)
    (L : Libraries C) where
  open C use {Rng, Randomizer}

  -- The command up to the release: the group that the chain has promoted, and the nodes.
  pub record Begun (threshold total : ℕ) (rng : Rng) (os : B.OsRng) : Type 0 where
    pub params : MpcParams
    pub accepted : new_params threshold total ≡ ok params
    pub participants : List (DkgParticipant B D)
    pub chain : ChainSim C
    pub rng0 : Rng
    pub os' : B.OsRng
    pub formed : form_group B D L params rng os ≡ ok (participants, chain, rng0, os')
    pub g : GroupConfig C
    pub group_there : chain.state.group ≡ some g
    pub nodes : List (Node C)
    pub made : into_nodes B D L participants ≡ ok nodes

  module _ {threshold total : ℕ} {rng : Rng} {os : B.OsRng} (b : Begun threshold total rng os) where
    -- The randomizer of both releases, and the generator that draws the first id.
    abbrev pub randomizer_of : Randomizer
    randomizer_of = (L.random_randomizer b.rng0).0

    abbrev pub drawing : Rng
    drawing = (L.random_randomizer b.rng0).1

    -- The release that these nodes make has been authorized, and `rng2` is the generator it leaves.
    abbrev pub Authorizes : Released C → Rng → Type 0
    Authorizes released rng2 =
        (nodes1 : List (Node C)) × (chain1 : ChainSim C) × (authorize_release L b.g.pkp
            randomizer_of b.nodes b.chain drawing
          ≡ ok (released, nodes1, chain1, rng2))
        × IsAuthorized L b.g randomizer_of released

  -- What the command has shown.
  abbrev pub Shows : ℕ → ℕ → Rng → B.OsRng → Released C → Type 0
  Shows threshold total rng os released =
      (b : Begun threshold total rng os) × (rng2 : Rng) × (b.g.params
        ≡ record { threshold = threshold; total = total })
      × Authorizes b released rng2

  -- The id of the tampered release is that of the release which this run has authorized, and it is
  -- that one whose status is reported.
  abbrev pub IsRepeated : ℕ → ℕ → Rng → B.OsRng → Halt C → Type 0
  IsRepeated threshold total rng os halt =
      (b : Begun threshold total rng os) × (released : Released C) × (rng2 : Rng) × Authorizes b
        released rng2
      × IsStale (new_uuid C (drawing b)).0 released.signers released.signature (new_uuid C rng2).0
          halt

  -- From the randomizer on.
  pub releases-IsExpectedOr :
      (threshold total : ℕ) (rng : Rng) (os : B.OsRng) (b : Begun threshold total rng os)
      → IsLawful C
      → Decodes L
      → IsReady (demo_policy L) b.g b.chain b.nodes
      → b.chain.state.requests ≡ []
      → 1 ≤ b.g.params.threshold
      → b.g.params ≡ record { threshold = threshold; total = total }
      → EndsIn (IsExpectedOr (IsRepeated threshold total rng os)) (Shows threshold total rng os) (
          authorize_release L b.g.pkp (randomizer_of b) b.nodes b.chain (drawing b)
          >>= λ (released, nodes1, chain1, rng2).
              reject_tampered L (randomizer_of b) nodes1 chain1 rng2 >> ok released)
  releases-IsExpectedOr threshold total rng os b lawful decodes ready empty quorum params_of =
      let first = (new_uuid C (drawing b)).0 in
      let run = authorize_release L b.g.pkp (randomizer_of b) b.nodes b.chain (drawing b) in
      let Q = IsExpectedOr (IsRepeated threshold total rng os) in
      let Safe = IsReleased L (demo_policy L) b.g (randomizer_of b) first in
      >>=-EndsIn Q (λ r. Safe r × (run ≡ ok r)) (Shows threshold total rng os) run _
        (EndsIn-widen IsExpected Q (λ r. Safe r × (run ≡ ok r)) run
          (EndsIn-run IsExpected Safe run (
            authorize_release-IsExpected L (demo_policy L) b.g (randomizer_of b) b.nodes b.chain
              (drawing b) lawful ready empty))
          (λ e h. inl h))
        (λ (released, nodes1, chain1, rng2) ((authorized, ready1, finished), ran).
          let done : Authorizes b released rng2 = (nodes1, chain1, ran, authorized) in
          let Stale = IsStale first released.signers released.signature (new_uuid C rng2).0 in
          let reject = reject_tampered L (randomizer_of b) nodes1 chain1 rng2 in
          >>=-EndsIn Q (λ _. Unit {0}) (Shows threshold total rng os) reject _
            (EndsIn-widen (IsExpectedOr Stale) Q (λ _. Unit {0}) reject
              (reject_tampered-IsExpectedOr L b.g (randomizer_of b) first released.signers
                released.signature nodes1 chain1 rng2 lawful decodes ready1 quorum finished)
              (λ e h. elim h [
                | inl fine ↦ inl fine
                | inr stale ↦ inr (b, released, rng2, done, stale)
              ]))
            (λ _ _. (b, rng2, params_of, done)))
