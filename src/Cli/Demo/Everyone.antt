-- ===== src/Cli/Demo/Everyone.antt =====
-- The loops of the demo's key generation: whoever takes part is complete once there is a group.
use project_sapphire.Base.{
  ℕ, zero, suc, ◌≡◌, ◌≢◌, refl, sym, subst, true, some, List, [], ◌∷◌, ◌++◌, Ord, ok, option_elim,
  EndsIn, >>=-EndsIn, EndsIn-both, map_err-EndsIn, map_err,
}
use project_sapphire.Base.Map.{Map, contains_key}
use project_sapphire.Core.{MpcParams}
use project_sapphire.Frost.{Ciphersuite, IsLawful}
use project_sapphire.Chain.Tx.{EncPublicKey, dkg_begin}
use project_sapphire.Chain.State.{GroupConfig}
use project_sapphire.Chain.Validity.{InRange}
use project_sapphire.Chain.Sim.{ChainSim, new_sim, submit, commit_block}
use project_sapphire.Chain.Sim.Laws.{
  submit_all, mempool-submit_all, state-submit_all, state-commit_block, mempool-commit_block,
}
use project_sapphire.Node.Gate.{All}
use project_sapphire.Keygen.Envelope.{CryptoBox}
use project_sapphire.Keygen.Participant.{DkgScheme, DkgParticipant, participate}
use project_sapphire.Cli.Demo.{
  Libraries, dkg_react, one_block, Scene, enroll, enc_keys, dkg_turns, dkg_blocks, form_group,
}
use project_sapphire.Cli.Demo.Forming.{
  IsExpected, IsDkg, IsForming, IsBetween, settled-IsForming, one_block-IsBetween,
}
use project_sapphire.Cli.Demo.Formed.{turns-IsDkg, enc_keys-IsSorted}
use project_sapphire.Cli.Demo.Steady.{IsComplete}
use project_sapphire.Cli.Demo.Owed.{Owns, settled-Owns}
use project_sapphire.Cli.Demo.Complete.{turn-Owns}
use project_sapphire.Cli.Demo.Enrolled.{
  AreDistinct, ids, IsInjective, AreEnrolled, enroll-AreEnrolled, contains-enc_keys, begun-Owns,
}

module _ {I : Type 0} ⦃o : Ord I⦄ {C : Ciphersuite I} (B : CryptoBox C.Rng) (D : DkgScheme C)
    (L : Libraries C) where
  open C use {Rng}

  -- All participants own what they have to, on this chain.
  abbrev AllOwn : ChainSim C → List (DkgParticipant B D) → Type 0
  AllOwn chain = All (λ q. Owns B D q chain.state chain.mempool)

  -- A property of participants that are apart from one in the list.
  apart-AllOwn :
      (i : I) (chain chain' : ChainSim C) (ps : List (DkgParticipant B D))
      → ((q : DkgParticipant B D)
          → i ≢ q.identifier
          → Owns B D q chain.state chain.mempool
          → Owns B D q chain'.state chain'.mempool)
      → All (λ j. i ≢ j) (ids B D L ps)
      → AllOwn chain ps
      → AllOwn chain' ps
  apart-AllOwn i chain chain' [] step apart all = tt
  apart-AllOwn i chain chain' (q ∷ ps) step (differ, apart) (w, all) =
      (step q differ w, apart-AllOwn i chain chain' ps step apart all)

  -- What the turns of these participants leave.
  abbrev Taken : List (DkgParticipant B D) → ChainSim C → Scene B D L → Type 0
  Taken ps chain (ps', chain', _, _) =
      (ids B D L ps' ≡ ids B D L ps)
      × AllOwn chain' ps'
      × ((q : DkgParticipant B D)
          → All (λ j. q.identifier ≢ j) (ids B D L ps)
          → Owns B D q chain.state chain.mempool
          → Owns B D q chain'.state chain'.mempool)

  turns-Taken :
      (ps : List (DkgParticipant B D)) (chain : ChainSim C) (rng : Rng) (os : B.OsRng)
      → AreDistinct (ids B D L ps)
      → AllOwn chain ps
      → EndsIn IsExpected (Taken ps chain) (dkg_turns B D L ps chain rng os)
  unfolding dkg_turns
  turns-Taken [] chain rng os distinct all = (refl, tt, λ q apart w. w)
  turns-Taken (p ∷ ps) chain rng os (apart, distinct) (w, all) =
      let (result, p', rng', os') = participate B D p chain.state rng os in
      >>=-EndsIn IsExpected (λ txs. result ≡ ok txs) (Taken (p ∷ ps) chain)
        (map_err dkg_react result) _
        (map_err-EndsIn IsExpected dkg_react (λ txs. result ≡ ok txs) result (λ e. tt) (λ txs e. e))
        (λ txs e.
          let next = submit_all chain txs in
          let (same, own, others) = turn-Owns B D p chain.state rng os chain.mempool txs e w in
          let moved : (q : DkgParticipant B D)
              → Owns B D q chain.state (chain.mempool ++ txs)
              → Owns B D q next.state next.mempool =
            λ q v. rw (state-submit_all chain txs, mempool-submit_all chain txs) v in
          >>=-EndsIn IsExpected (Taken ps next) (Taken (p ∷ ps) chain)
            (dkg_turns B D L ps next rng' os') _
            (turns-Taken ps next rng' os' distinct (
              apart-AllOwn p.identifier chain next ps (λ q differ v. moved q (others q differ v))
                apart all))
            (λ (ps', chain', _, _) (kept, alls, rest). (
              rw (same, kept) refl,
              (rest p' (rw same apart) (moved p' own), alls),
              (λ q (differ, far) v. rest q far (moved q (others q (λ h. differ (sym h)) v))),
            )))

  settled-AllOwn :
      (params : MpcParams) (chain : ChainSim C) (ps : List (DkgParticipant B D))
      → IsLawful C
      → IsForming params chain.state
      → All IsDkg chain.mempool
      → AllOwn chain ps
      → AllOwn (commit_block chain).0 ps
  settled-AllOwn params chain [] lawful f dkg all = tt
  settled-AllOwn params chain (q ∷ ps) lawful f dkg (w, all) = (
    rw (state-commit_block, mempool-commit_block)
        (settled-Owns B D params q chain.state chain.mempool lawful f dkg w),
    settled-AllOwn params chain ps lawful f dkg all,
  )

  everyone_there :
      (chain : ChainSim C) (ps : List (DkgParticipant B D)) (g : GroupConfig C)
      → chain.state.group ≡ some g
      → AllOwn chain ps
      → All (IsComplete B D) ps
  everyone_there chain [] g found all = tt
  everyone_there chain (q ∷ ps) g found (w, all) =
      (w.promoted g found, everyone_there chain ps g found all)

  abbrev pub AreComplete : Scene B D L → Type 0
  AreComplete (ps, _, _, _) = All (IsComplete B D) ps

  blocks-AreComplete :
      (params : MpcParams) (n : ℕ) (ps : List (DkgParticipant B D)) (chain : ChainSim C) (rng : Rng)
      (os : B.OsRng)
      → IsLawful C
      → IsBetween params chain
      → AreDistinct (ids B D L ps)
      → AllOwn chain ps
      → EndsIn IsExpected AreComplete (dkg_blocks B D L n ps chain rng os)
  unfolding dkg_blocks
  blocks-AreComplete params zero ps chain rng os lawful b distinct all =
      option_elim (EndsIn IsExpected AreComplete) chain.state.group (λ _. tt)
        (λ g found. everyone_there chain ps g found all)
  blocks-AreComplete params (suc n) ps chain rng os lawful (f, idle) distinct all =
      let Emits : Scene B D L → Type 0 =
        λ (_, chain', _, _). (chain'.state ≡ chain.state) × All IsDkg chain'.mempool in
      option_elim (EndsIn IsExpected AreComplete) chain.state.group
        (λ _.
          >>=-EndsIn IsExpected (λ w. Emits w × Taken ps chain w) AreComplete
            (dkg_turns B D L ps chain rng os) _
            (EndsIn-both IsExpected Emits (Taken ps chain) (dkg_turns B D L ps chain rng os)
              (turns-IsDkg B D L chain.state ps chain rng os refl (rw idle tt))
              (turns-Taken ps chain rng os distinct all))
            (λ (ps', chain', rng', os') ((same, dkg), (kept, owns, _)).
              let here : IsForming params chain'.state = subst (IsForming params) (sym same) f in
              let next : IsForming params (commit_block chain').0.state =
                rw state-commit_block (settled-IsForming params chain'.state _ lawful here dkg) in
              blocks-AreComplete params n ps' (commit_block chain').0 rng' os' lawful
                (next, mempool-commit_block chain') (rw kept distinct)
                (settled-AllOwn params chain' ps' lawful here dkg owns)))
        (λ g found. everyone_there chain ps g found all)

  begun-AllOwn :
      (params : MpcParams) (keys : Map I EncPublicKey) (ps : List (DkgParticipant B D))
      → All (λ q. contains_key q.identifier keys ≡ true) ps
      → AllOwn (one_block (new_sim C) (dkg_begin params keys)) ps
  unfolding submit
  begun-AllOwn params keys [] all = tt
  begun-AllOwn params keys (q ∷ ps) (held, all) = (
    rw (state-commit_block, mempool-commit_block) (begun-Owns B D L params keys q held),
    begun-AllOwn params keys ps all,
  )

  -- The key generation ends with a group of these parameters and complete participants.
  pub form_group-AreComplete :
      (params : MpcParams) (rng : Rng) (os : B.OsRng)
      → IsLawful C
      → InRange params
      → IsInjective B D L
      → EndsIn IsExpected AreComplete (form_group B D L params rng os)
  unfolding form_group
  form_group-AreComplete params rng os lawful range injective =
      >>=-EndsIn IsExpected (λ (ps, _). AreEnrolled B D L 1 (ids B D L ps)) AreComplete
        (enroll B D L params.total 1 rng) _ (enroll-AreEnrolled B D L params.total 1 rng injective)
        (λ (ps, rng0) (distinct, _).
          let keys = enc_keys B D L ps [] in
          blocks-AreComplete params 20 ps (one_block (new_sim C) (dkg_begin params keys)) rng0 os
            lawful (one_block-IsBetween params keys lawful range (enc_keys-IsSorted B D L ps [] tt))
            distinct (begun-AllOwn params keys ps (contains-enc_keys B D L ps [])))
