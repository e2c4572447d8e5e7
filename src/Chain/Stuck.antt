-- ===== src/Chain/Stuck.antt =====
-- A threshold of zero, which `apply_tx` does not refuse: the first commitment closes the round with
-- nobody in it.
use project_sapphire.Base.{◌≡◌, [], Ord, err, arith}
use project_sapphire.Base.Map.{Map, key_set, contains_key, get}
use project_sapphire.Core.{Bytes, uuid_ord}
use project_sapphire.Frost.{Ciphersuite}
use project_sapphire.Chain.State.{signing, GroupConfig, not_selected_participant}
use project_sapphire.Chain.Apply.{advance, record_share}

module _ {I : Type 0} ⦃o : Ord I⦄ {C : Ciphersuite I} where
  -- With a threshold of zero any commitments close the round without a participant, and then every
  -- share for the request is refused, whoever sends it.
  pub zero_threshold-selects_nobody :
      (g : GroupConfig C) (message : Bytes) (commitments : Map I C.SigningCommitments)
      (randomizer : C.Randomizer) (validator : I) (share : C.SignatureShare)
      → g.params.threshold ≡ 0
      → (advance g message commitments ≡ signing (C.signing_package [] message) [] [])
        × (record_share g randomizer validator share (advance g message commitments)
            ≡ err not_selected_participant)
  unfolding advance record_share contains_key get key_set
  zero_threshold-selects_nobody g message commitments randomizer validator share none_needed =
      let closed : advance g message commitments ≡ signing (C.signing_package [] message) [] [] =
        rw (none_needed, advance) (ground arith) in
      (closed, rw (closed, record_share))
