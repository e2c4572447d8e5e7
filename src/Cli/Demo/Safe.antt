-- ===== src/Cli/Demo/Safe.antt =====
-- The two releases of the demo, from a chain and nodes that are ready.
use project_sapphire.Base.{
  ◌≡◌, refl, ◌∙◌, some, List, [], Ord, ok, inl, inr, true, EndsIn, >>=-EndsIn, map_err-EndsIn,
  map_err, ok_or, ◌>>=◌, arith, length, ==_iff,
}
use project_sapphire.Base.Map.{Set, get, contains_key, insert}
use project_sapphire.Base.Map.Laws.{get-insert_self}
use project_sapphire.Base.Map.Counting.{KeysWithin}
use project_sapphire.Core.{Bytes, Uuid, uuid_ord}
use project_sapphire.Frost.{Ciphersuite, IsLawful}
use project_sapphire.Chain.Tx.{submit_request}
use project_sapphire.Chain.State.{
  State, RequestEntry, RequestStatus, GroupConfig, awaiting_commitments, signing, completed, failed,
}
use project_sapphire.Chain.Validity.{IsValid}
use project_sapphire.Chain.Signature.{valid-verifies}
use project_sapphire.Chain.Progress.{Reaches-Follows}
use project_sapphire.Chain.Sim.{ChainSim}
use project_sapphire.Node.Policy.{SignPolicy}
use project_sapphire.Node.Signer.{Node}
use project_sapphire.Cli.Demo.{
  Libraries, serializing, missing_panic, new_uuid, Released, proposal_to, one_block, react_block,
  judge_release, authorize_release,
}
use project_sapphire.Cli.Demo.Forming.{IsExpected}
use project_sapphire.Cli.Demo.Ready.{
  IsReady, IsOnly, IsFinished, opened_entry, Opens, react_block-IsReady, one_block-IsReady,
}

module _ {I : Type 0} ⦃o : Ord I⦄ {C : Ciphersuite I} (L : Libraries C) where
  open C use {
    Rng, Randomizer, Signature, PublicKeyPackage, verify, verifying_key, from_randomizer,
    randomized_verifying_key,
  }

  judge_release-IsExpected :
      (pkp : PublicKeyPackage) (randomizer : Randomizer) (message : Bytes)
      (status : RequestStatus C)
      → ((participants : Set I) (signature : Signature)
          → status ≡ completed participants signature
          → verify
              (randomized_verifying_key (from_randomizer (verifying_key pkp) randomizer))
              message
              signature
            ≡ true)
      → EndsIn IsExpected
          (λ released. status ≡ completed released.signers released.signature)
          (judge_release L pkp randomizer message status)
  unfolding judge_release
  judge_release-IsExpected pkp randomizer message (completed participants signature) verifies =
      rw (verifies participants signature refl) (
        >>=-EndsIn IsExpected (λ _. Unit {0}) _ (map_err serializing (L.serialize signature)) _
          (map_err-EndsIn IsExpected serializing (λ _. Unit {0}) (L.serialize signature) (λ e. tt)
            (λ bytes e. tt))
          (λ bytes _. refl))
  judge_release-IsExpected pkp randomizer message (awaiting_commitments _) verifies = tt
  judge_release-IsExpected pkp randomizer message (signing _ _ _) verifies = tt
  judge_release-IsExpected pkp randomizer message (failed _) verifies = tt

  -- The signature verifies for the release to Alice under the group's key, rerandomized, and as many
  -- validators of the group as the threshold says took part.
  abbrev pub IsAuthorized : GroupConfig C → Randomizer → Released C → Type 0
  IsAuthorized g randomizer released =
      (message : Bytes) × (L.to_vec (proposal_to "u_alice") ≡ ok message)
      × (verify (randomized_verifying_key (from_randomizer (verifying_key g.pkp) randomizer))
            message released.signature
          ≡ true)
      × (length released.signers ≡ g.params.threshold)
      × KeysWithin released.signers g.validators

  abbrev pub IsReleased :
      SignPolicy
      → GroupConfig C
      → Randomizer
      → Uuid
      → Released C × List (Node C) × ChainSim C × Rng
      → Type 0
  IsReleased policy g randomizer k (released, nodes, chain, _) =
      IsAuthorized g randomizer released
      × IsReady policy g chain nodes
      × IsFinished k released.signers released.signature chain.state

  first_request :
      (k : Uuid) (message : Bytes) (randomizer : Randomizer) (s t : State C)
      → s.requests ≡ []
      → Opens k message randomizer s t
      → (get k t.requests ≡ some (opened_entry k message randomizer)) × IsOnly k t
  unfolding contains_key get insert
  first_request k message randomizer s t empty (inr (held, same)) =
      absurd (ground (arith, rw empty at held))
  first_request k message randomizer s t empty (inl (fresh, made)) =
      (made_there, λ j held. ground (arith, rw (made, empty) at held, ==_iff j k))
    where
      made_there : get k t.requests ≡ some (opened_entry k message randomizer)
      made_there = rw made (get-insert_self k (opened_entry k message randomizer) s.requests)

  -- What the second block has made of the request.
  record Served (k : Uuid) (message : Bytes) (randomizer : Randomizer) (g : GroupConfig C)
      (s : State C) : Type 0 where
    state-IsValid : IsValid s
    group_there : s.group ≡ some g
    entry : RequestEntry C
    there : get k s.requests ≡ some entry
    same_message : entry.message ≡ message
    same_randomizer : entry.randomizer ≡ randomizer

  Served-verifies :
      (k : Uuid) (message : Bytes) (randomizer : Randomizer) (g : GroupConfig C) (s : State C)
      (v : Served k message randomizer g s) (participants : Set I) (signature : Signature)
      → IsLawful C
      → v.entry.status ≡ completed participants signature
      → (verify
            (randomized_verifying_key (from_randomizer (verifying_key g.pkp) randomizer))
            message
            signature
          ≡ true)
        × (length participants ≡ g.params.threshold)
        × KeysWithin participants g.validators
  Served-verifies k message randomizer g s v participants signature lawful done =
      rw (← v.same_message, ← v.same_randomizer)
        (valid-verifies s k v.entry g participants signature lawful v.state-IsValid v.group_there
          v.there done)

  -- From the request on.
  Served-IsExpected :
      (policy : SignPolicy) (k : Uuid) (message : Bytes) (randomizer : Randomizer)
      (g : GroupConfig C) (nodes : List (Node C)) (chain : ChainSim C) (rng : Rng)
      → IsLawful C
      → L.to_vec (proposal_to "u_alice") ≡ ok message
      → Served k message randomizer g chain.state
      → IsReady policy g chain nodes
      → IsOnly k chain.state
      → EndsIn IsExpected (IsReleased policy g randomizer k) (
          ok_or (get k chain.state.requests) missing_panic >>= λ entry.
          judge_release L g.pkp randomizer message entry.status >>= λ released.
          ok (released, nodes, chain, rng))
  Served-IsExpected policy k message randomizer g nodes chain rng lawful encoded v r only =
      let verifies = Served-verifies k message randomizer g chain.state v in
      rw v.there (
        >>=-EndsIn IsExpected
          (λ released. v.entry.status ≡ completed released.signers released.signature)
          (IsReleased policy g randomizer k)
          (judge_release L g.pkp randomizer message v.entry.status) _
          (judge_release-IsExpected g.pkp randomizer message v.entry.status
            (λ participants signature done. (verifies participants signature lawful done).0))
          (λ released done. (
            (let (verified, count, within) =
                  verifies released.signers released.signature lawful done in
                (message, encoded, verified, count, within)),
            r,
            (v.entry, only, v.there, done),
          )))

  pub authorize_release-IsExpected :
      (policy : SignPolicy) (g : GroupConfig C) (randomizer : Randomizer) (nodes : List (Node C))
      (chain : ChainSim C) (rng : Rng)
      → IsLawful C
      → IsReady policy g chain nodes
      → chain.state.requests ≡ []
      → EndsIn IsExpected
          (IsReleased policy g randomizer (new_uuid C rng).0)
          (authorize_release L g.pkp randomizer nodes chain rng)
  unfolding authorize_release
  authorize_release-IsExpected policy g randomizer nodes chain rng lawful r empty =
      >>=-EndsIn IsExpected (λ m. L.to_vec (proposal_to "u_alice") ≡ ok m) _
        (map_err serializing (L.to_vec (proposal_to "u_alice"))) _
        (map_err-EndsIn IsExpected serializing _ (L.to_vec (proposal_to "u_alice")) (λ e. tt)
          (λ m e. e))
        (λ m encoded.
          let (k, rng0) = new_uuid C rng in
          let chain0 = one_block chain (submit_request k m randomizer) in
          let (r0, _, opens) = one_block-IsReady policy g nodes chain k m randomizer lawful r in
          let (there0, only0) = first_request k m randomizer chain.state chain0.state empty opens in
          >>=-EndsIn IsExpected _ _ (react_block nodes chain0 rng0) _
            (react_block-IsReady policy g nodes chain0 rng0 lawful r0)
            (λ (nodes1, chain1, rng1) (r1, reaches1, only1).
              >>=-EndsIn IsExpected _ _ (react_block nodes1 chain1 rng1) _
                (react_block-IsReady policy g nodes1 chain1 rng1 lawful r1)
                (λ (nodes2, chain2, rng2) (r2, reaches2, only2).
                  let (e1, there1, f1) =
                    Reaches-Follows k (opened_entry k m randomizer) reaches1 there0 in
                  let (e2, there2, f2) = Reaches-Follows k e1 reaches2 there1 in
                  let served : Served k m randomizer g chain2.state = record {
                    state-IsValid = r2.state-IsValid;
                    group_there = r2.group_there;
                    entry = e2;
                    there = there2;
                    same_message = f2.same_message ∙ f1.same_message;
                    same_randomizer = f2.same_randomizer ∙ f1.same_randomizer;
                  } in
                  Served-IsExpected policy k m randomizer g nodes2 chain2 rng2 lawful encoded served
                    r2 (only2 k (only1 k only0)))))
