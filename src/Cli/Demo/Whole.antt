-- ===== src/Cli/Demo/Whole.antt =====
-- The whole command `escrow-demo`: what can end it, and what it has shown where it returns.
use project_sapphire.Base.{
  ℕ, ◌≡◌, sym, none, ◌<◌, ◌≤◌, refl, subst, ◌∙◌, some, List, [], ◌∷◌, Ord, ok, inl, inr, arith,
  EndsIn, >>=-EndsIn, EndsIn-both, EndsIn-widen, EndsIn-run, map_err-EndsIn, ok_or-EndsIn, map_err,
  ok_or, ◌>>=◌, ◌>>◌, Option-cases,
}
use project_sapphire.Base.Map.{Set}
use project_sapphire.Base.Map.Within.{nil-KeysWithin}
use project_sapphire.Core.{new_params, new_params-ok_iff, MpcParams, u16_mod, Uuid, uuid_ord}
use project_sapphire.Frost.{Ciphersuite, IsLawful}
use project_sapphire.Chain.Validity.{InRange}
use project_sapphire.Chain.Sim.{ChainSim}
use project_sapphire.Node.Signer.{KeyShareBundle, Node, new_node}
use project_sapphire.Node.Memory.{IsConsistent}
use project_sapphire.Node.Gate.{All}
use project_sapphire.Keygen.Envelope.{CryptoBox}
use project_sapphire.Keygen.Participant.{DkgScheme, DkgParticipant, into_node}
use project_sapphire.Cli.Demo.{
  Libraries, invalid, missing_panic, form_group, into_nodes, authorize_release, reject_tampered,
  cmd_escrow_demo, Scene,
}
use project_sapphire.Cli.Demo.Forming.{IsExpected}
use project_sapphire.Cli.Demo.Formed.{IsFormed, form_group-IsFormed}
use project_sapphire.Cli.Demo.Steady.{IsComplete}
use project_sapphire.Cli.Demo.Enrolled.{IsInjective}
use project_sapphire.Cli.Demo.Everyone.{AreComplete, form_group-AreComplete}
use project_sapphire.Cli.Demo.Ready.{IsKept}
use project_sapphire.Cli.Demo.Refused.{demo_policy, Decodes, IsExpectedOr}
use project_sapphire.Cli.Demo.Run.{Shows, IsRepeated, releases-IsExpectedOr}

none-ne-some : {A : Type 0} {a : A} → none ≡ some a → ⊥
none-ne-some h = cc

module _ {I : Type 0} ⦃o : Ord I⦄ {C : Ciphersuite I} (B : CryptoBox C.Rng) (D : DkgScheme C)
    (L : Libraries C) where
  open C use {Rng, Randomizer}

  new-IsConsistent :
      (p : DkgParticipant B D) (node : Node C) → into_node B D p ≡ ok node → IsConsistent node
  unfolding into_node
  new-IsConsistent p node made = elim (Option-cases p.key_package) [
    | inl without ↦ absurd (ground (arith, rw (without, into_node) at made))
    | inr (k, there) ↦ elim (Option-cases p.public_key_package) [
      | inl without ↦ absurd (ground (arith, rw (there, into_node, without) at made))
      | inr (pkp, there') ↦
          let bundle : KeyShareBundle C = record { key_package = k; public_key_package = pkp } in
          let node_is : new_node C bundle ≡ node =
            ground (arith, rw (there, into_node, there') at made) in
          let none_of : Set Uuid = [] in
          subst IsConsistent node_is (nil-KeysWithin C.SigningNonces none_of)
    ]
  ]

  into_nodes-AllKept :
      (ps : List (DkgParticipant B D))
      → All (IsComplete B D) ps
      → EndsIn IsExpected (All (IsKept (demo_policy L))) (into_nodes B D L ps)
  unfolding into_nodes
  into_nodes-AllKept [] all = tt
  into_nodes-AllKept (p ∷ ps) ((node, made), all) = rw made (
      >>=-EndsIn IsExpected (All (IsKept (demo_policy L))) _ (into_nodes B D L ps) _
        (into_nodes-AllKept ps all) (λ nodes kept. ((new-IsConsistent p node made, refl), kept)))

  -- From the group on.
  formed-IsExpectedOr :
      (threshold total : ℕ) (rng : Rng) (os : B.OsRng) (params : MpcParams)
      (ps : List (DkgParticipant B D)) (chain : ChainSim C) (rng0 : Rng) (os' : B.OsRng)
      → IsLawful C
      → Decodes L
      → new_params threshold total ≡ ok params
      → form_group B D L params rng os ≡ ok (ps, chain, rng0, os')
      → IsFormed B D L params (ps, chain, rng0, os')
      → All (IsComplete B D) ps
      → 1 ≤ threshold
      → params ≡ record { threshold = threshold; total = total }
      → EndsIn
          (IsExpectedOr (IsRepeated B D L threshold total rng os))
          (Shows B D L threshold total rng os)
          (ok_or chain.state.group missing_panic >>= λ group. into_nodes B D L ps >>= λ nodes.
            (let (randomizer, rng1) = L.random_randomizer rng0 in
              authorize_release L group.pkp randomizer nodes chain rng1
              >>= λ (released, nodes1, chain1, rng2).
                  reject_tampered L randomizer nodes1 chain1 rng2 >> ok released))
  formed-IsExpectedOr threshold total rng os params ps chain rng0 os' lawful decodes accepted formed
        ((f, idle), _, found) complete positive same =
      let Q = IsExpectedOr (IsRepeated B D L threshold total rng os) in
      let Shown = Shows B D L threshold total rng os in
      let nodes_made = into_nodes B D L ps in
      let Kept = All (IsKept (demo_policy L)) in
      >>=-EndsIn Q (λ g. chain.state.group ≡ some g) Shown (ok_or chain.state.group missing_panic) _
        (ok_or-EndsIn Q missing_panic (λ g. chain.state.group ≡ some g) chain.state.group
          (λ without. absurd (none-ne-some (sym without ∙ found))) (λ g here. here))
        (λ g here.
          >>=-EndsIn Q (λ nodes. Kept nodes × (nodes_made ≡ ok nodes)) Shown nodes_made _
            (EndsIn-widen IsExpected Q (λ nodes. Kept nodes × (nodes_made ≡ ok nodes)) nodes_made
              (EndsIn-run IsExpected Kept nodes_made (into_nodes-AllKept ps complete))
              (λ e h. inl h))
            (λ nodes (kept, made).
              let params_of : g.params ≡ params = f.group_params g here in
              releases-IsExpectedOr B D L threshold total rng os
                (record {
                  params = params;
                  accepted = accepted;
                  participants = ps;
                  chain = chain;
                  rng0 = rng0;
                  os' = os';
                  formed = formed;
                  g = g;
                  group_there = here;
                  nodes = nodes;
                  made = made;
                })
                lawful decodes
                (record {
                  state-IsValid = f.state-IsValid;
                  nothing_pending = idle;
                  group_there = here;
                  nodes-AllKept = kept;
                })
                f.no_requests (rw (params_of, same) positive) (params_of ∙ same)))

  -- Where FROST has its laws, different numbers have different identifiers, what is written of a
  -- proposal reads back, and threshold and total are of 16 bits: the demo never panics on a participant
  -- that is no node, nor on a group or a request that is missing; it never reports a signature that
  -- does not verify; and it never reports that the tampered release has progressed, but where the
  -- second id drawn is the first one again: then the status that it reports is that of the release
  -- which this run has authorized, with the same signers and the same signature. Where the demo
  -- returns, its signature verifies, for the release to Alice, under the rerandomized key of the group
  -- that its key generation made, which has these parameters, and as many validators of the group took
  -- part as the threshold says.
  pub cmd_escrow_demo-IsExpected :
      (threshold total : ℕ) (rng : Rng) (os : B.OsRng)
      → IsLawful C
      → IsInjective B D L
      → Decodes L
      → threshold < u16_mod
      → total < u16_mod
      → EndsIn
          (IsExpectedOr (IsRepeated B D L threshold total rng os))
          (Shows B D L threshold total rng os)
          (cmd_escrow_demo B D L threshold total rng os)
  unfolding cmd_escrow_demo
  cmd_escrow_demo-IsExpected threshold total rng os lawful injective decodes small few =
      let Q = IsExpectedOr (IsRepeated B D L threshold total rng os) in
      let Shown = Shows B D L threshold total rng os in
      >>=-EndsIn Q (λ params. new_params threshold total ≡ ok params) Shown
        (map_err invalid (new_params threshold total)) _
        (map_err-EndsIn Q invalid _ (new_params threshold total) (λ e. inl tt) (λ params e. e))
        (λ params accepted.
          let (positive, above, same) = (new_params-ok_iff threshold total params).0 accepted in
          let range : InRange params = rw same (small, few) in
          let Formed = IsFormed B D L params in
          let All_complete = AreComplete B D L in
          let forming = form_group B D L params rng os in
          let Begins = λ (w : Scene B D L). (Formed w × All_complete w) × (forming ≡ ok w) in
          >>=-EndsIn Q Begins Shown forming _
            (EndsIn-widen IsExpected Q Begins forming
              (EndsIn-run IsExpected (λ w. Formed w × All_complete w) forming
                (EndsIn-both IsExpected Formed All_complete forming
                  (form_group-IsFormed B D L params rng os lawful range)
                  (form_group-AreComplete B D L params rng os lawful range injective)))
              (λ e h. inl h))
            (λ (ps, chain, rng0, os') ((between, complete), formed).
              formed-IsExpectedOr threshold total rng os params ps chain rng0 os' lawful decodes
                accepted formed between complete positive same))
