-- ===== src/Cli/Demo/Formed.antt =====
-- The loops of the demo's key generation end with a group of these parameters.
use project_sapphire.Base.{
  ◌≡◌, refl, subst, ◌∙◌, some, List, [], ◌∷◌, Ord, ok, inl, inr, Result-cases, EndsIn, >>=-EndsIn,
  map_err-EndsIn, option_elim, map_err, ℕ, zero, suc, ◌+◌,
}
use project_sapphire.Base.Map.{Map}
use project_sapphire.Base.Map.Sorted.{IsSorted, insert-IsSorted}
use project_sapphire.Core.{MpcParams}
use project_sapphire.Frost.{Ciphersuite, IsLawful}
use project_sapphire.Chain.Tx.{EncPublicKey, dkg_begin}
use project_sapphire.Chain.State.{State, GroupConfig}
use project_sapphire.Chain.Validity.{InRange}
use project_sapphire.Chain.Sim.{ChainSim, new_sim, commit_block}
use project_sapphire.Chain.Sim.Laws.{
  submit_all, mempool-submit_all, state-submit_all, state-commit_block, mempool-commit_block,
}
use project_sapphire.Node.Once.{sent}
use project_sapphire.Node.Gate.{All, All-append}
use project_sapphire.Keygen.Envelope.{CryptoBox}
use project_sapphire.Keygen.Participant.{DkgScheme, DkgParticipant, new_participant, participate}
use project_sapphire.Keygen.Laws.{IsTimely, participate-IsFit}
use project_sapphire.Cli.Demo.{
  Libraries, dkg_react, one_block, Scene, enroll, enc_keys, dkg_turns, dkg_blocks, form_group,
}
use project_sapphire.Cli.Demo.Forming.{
  IsExpected, IsDkg, IsForming, IsBetween, settled-IsForming, one_block-IsBetween, timely-AllDkg,
}

module _ {I : Type 0} ⦃o : Ord I⦄ {C : Ciphersuite I} (B : CryptoBox C.Rng) (D : DkgScheme C)
    (L : Libraries C) where
  open C use {Rng}

  -- The participants leave the state as it is, and add transactions of the key generation.
  pub turns-IsDkg :
      (s : State C) (ps : List (DkgParticipant B D)) (chain : ChainSim C) (rng : Rng) (os : B.OsRng)
      → chain.state ≡ s
      → All IsDkg chain.mempool
      → EndsIn IsExpected
          (λ (_, chain', _, _). (chain'.state ≡ s) × All IsDkg chain'.mempool)
          (dkg_turns B D L ps chain rng os)
  unfolding dkg_turns
  turns-IsDkg s [] chain rng os same all = (same, all)
  turns-IsDkg s (p ∷ ps) chain rng os same all =
      let (result, p', rng', os') = participate B D p chain.state rng os in
      let timely = (participate-IsFit B D p chain.state rng os).0 in
      let Ends : Scene B D L → Type 0 =
        λ (_, chain', _, _). (chain'.state ≡ s) × All IsDkg chain'.mempool in
      >>=-EndsIn IsExpected (λ txs. result ≡ ok txs) Ends (map_err dkg_react result) _
        (map_err-EndsIn IsExpected dkg_react (λ txs. result ≡ ok txs) result (λ e. tt) (λ txs e. e))
        (λ txs e.
          let fits = subst (λ r. All (IsTimely chain.state p.identifier) (sent r)) e timely in
          let queued : All IsDkg (submit_all chain txs).mempool =
            rw (mempool-submit_all chain txs) (
              All-append IsDkg chain.mempool txs all
                (timely-AllDkg chain.state p.identifier txs fits)) in
          >>=-EndsIn IsExpected Ends Ends (dkg_turns B D L ps (submit_all chain txs) rng' os') _
            (turns-IsDkg s ps (submit_all chain txs) rng' os' (state-submit_all chain txs ∙ same)
              queued)
            (λ w h. h))

  -- The key generation has made a group with these parameters.
  abbrev pub IsFormed : MpcParams → Scene B D L → Type 0
  IsFormed params (_, chain, _, _) =
      IsBetween params chain × (g : GroupConfig C) × (chain.state.group ≡ some g)

  blocks-IsFormed :
      (params : MpcParams) (n : ℕ) (ps : List (DkgParticipant B D)) (chain : ChainSim C) (rng : Rng)
      (os : B.OsRng)
      → IsLawful C
      → IsBetween params chain
      → EndsIn IsExpected (IsFormed params) (dkg_blocks B D L n ps chain rng os)
  unfolding dkg_blocks
  blocks-IsFormed params zero ps chain rng os lawful b =
      option_elim (EndsIn IsExpected (IsFormed params)) chain.state.group (λ _. tt)
        (λ g found. (b, g, found))
  blocks-IsFormed params (suc n) ps chain rng os lawful (f, idle) =
      option_elim (EndsIn IsExpected (IsFormed params)) chain.state.group
        (λ _.
          >>=-EndsIn IsExpected
            (λ (_, chain', _, _). (chain'.state ≡ chain.state) × All IsDkg chain'.mempool)
            (IsFormed params) (dkg_turns B D L ps chain rng os) _
            (turns-IsDkg chain.state ps chain rng os refl (rw idle tt))
            (λ (ps', chain', rng', os') (same, all).
              let next : IsForming params (commit_block chain').0.state =
                rw (state-commit_block, same)
                  (settled-IsForming params chain.state _ lawful f all) in
              blocks-IsFormed params n ps' (commit_block chain').0 rng' os' lawful
                (next, mempool-commit_block chain')))
        (λ g found. ((f, idle), g, found))

  pub enc_keys-IsSorted :
      (ps : List (DkgParticipant B D)) (keys : Map I EncPublicKey)
      → IsSorted keys
      → IsSorted (enc_keys B D L ps keys)
  unfolding enc_keys
  enc_keys-IsSorted [] keys sorted = sorted
  enc_keys-IsSorted (p ∷ ps) keys sorted =
      enc_keys-IsSorted ps _ (insert-IsSorted p.identifier p.enc_public keys sorted)

  enroll-IsExpected :
      (n i : ℕ) (rng : Rng) → EndsIn IsExpected (λ _. Unit {0}) (enroll B D L n i rng)
  unfolding enroll
  enroll-IsExpected zero i rng = tt
  enroll-IsExpected (suc n) i rng = elim (Result-cases (L.try_into i)) [
    | inr (e, bad) ↦ rw (bad, enroll) tt
    | inl (id, good) ↦
        let (p, rng') = new_participant B D id rng in
        rw (good, enroll)
          (>>=-EndsIn IsExpected (λ _. Unit {0}) (λ _. Unit {0}) (enroll B D L n (i + 1) rng') _
            (enroll-IsExpected n (i + 1) rng') (λ made h. tt))
  ]

  pub form_group-IsFormed :
      (params : MpcParams) (rng : Rng) (os : B.OsRng)
      → IsLawful C
      → InRange params
      → EndsIn IsExpected (IsFormed params) (form_group B D L params rng os)
  unfolding form_group
  form_group-IsFormed params rng os lawful range =
      >>=-EndsIn IsExpected (λ _. Unit {0}) (IsFormed params) (enroll B D L params.total 1 rng) _
        (enroll-IsExpected params.total 1 rng)
        (λ (ps, rng0) _.
          let keys = enc_keys B D L ps [] in
          blocks-IsFormed params 20 ps (one_block (new_sim C) (dkg_begin params keys)) rng0 os
            lawful (one_block-IsBetween params keys lawful range (enc_keys-IsSorted ps [] tt)))
