-- ===== src/Zcash/Actions.antt =====
-- What signing a whole bundle leaves.
use project_sapphire.Base.{
  ℕ, suc, ◌+◌, ◌≡◌, ◌<◌, refl, ap, subst, ◌⊎◌, inl, inr, false, List, [], ◌∷◌, String, Ord, Result,
  ok, err, length, take, drop, arith,
}
use project_sapphire.Core.{Bytes}
use project_sapphire.Frost.{Ciphersuite, IsLawful}
use project_sapphire.Chain.State.{ApplyError, GroupConfig}
use project_sapphire.Chain.Sim.{ChainSim}
use project_sapphire.Node.Signer.{Node}
use project_sapphire.Node.Gate.{All}
use project_sapphire.Zcash.Ready.{IsReady}
use project_sapphire.Zcash.Pczt.{
  Orchard, PcztSignError, sign_action, sign_actions, sign_pczt_orchard_bundle,
}
use project_sapphire.Zcash.Bundle.{
  IsLawfulOrchard, IsFor, IsSignedAs, place_of, is_rejection, sign_action-Round,
}

module _ {I : Type 0} ⦃o : Ord I⦄ {C : Ciphersuite I} (O : Orchard C) where
  -- Each action of the first list is left signed as the one of the second.
  abbrev pub AllSigned : Bytes → List O.Action → List O.Action → Type 0
  AllSigned sighash [] [] = Unit {0}
  AllSigned sighash [] (b ∷ signed) = ⊥
  AllSigned sighash (a ∷ rest) [] = ⊥
  AllSigned sighash (a ∷ rest) (b ∷ signed) =
      IsSignedAs O sighash a b × AllSigned sighash rest signed

module _ {I : Type 0} ⦃o : Ord I⦄ {C : Ciphersuite I} (O : Orchard C)
    (to_string : ApplyError → String) where
  -- All actions are signed; or those before a place are, the error is of this place and no rejected
  -- signature, and the actions from there on are as they were.
  abbrev Ends :
      ℕ
      → Bytes
      → List O.Action
      → Result (Unit {0}) PcztSignError × List O.Action × ChainSim C × List (Node C) × C.Rng
      → Type 0
  Ends idx sighash actions (result, actions', _, _, _) =
      ((result ≡ ok tt) × AllSigned O sighash actions actions')
      ⊎ ((e : PcztSignError) × (n : ℕ) × (result ≡ err e)
          × (place_of e ≡ idx + n)
          × (is_rejection e ≡ false)
          × (n < length actions)
          × AllSigned O sighash (take n actions) (take n actions')
          × (drop n actions' ≡ drop n actions))

  sign_actions-Ends :
      (idx : ℕ) (sighash : Bytes) (g : GroupConfig C) (actions : List O.Action) (chain : ChainSim C)
      (validators : List (Node C)) (rng : C.Rng)
      → IsLawful C
      → IsLawfulOrchard O
      → IsReady g chain validators
      → All (IsFor O g) actions
      → Ends idx sighash actions (sign_actions O to_string idx sighash actions chain validators rng)
  unfolding sign_actions
  sign_actions-Ends idx sighash g [] chain validators rng L LO r all = inl (refl, tt)
  sign_actions-Ends idx sighash g (action ∷ actions) chain validators rng L LO r (for_group, all) =
      let (_, action', chain', validators', rng') =
        sign_action O to_string idx sighash action chain validators rng in
      elim (sign_action-Round O to_string idx sighash g action chain validators rng L LO r
        for_group) [
          | inl (e, failed, same, place, no_rejection) ↦
              rw (failed, sign_actions)
                (inr (
                  e,
                  0,
                  refl,
                  omega (arith, place),
                  no_rejection,
                  omega arith,
                  tt,
                  ap (λ a. a ∷ actions) same,
                ))
          | inr (done, signed, ready) ↦
              elim (sign_actions-Ends (idx + 1) sighash g actions chain' validators' rng' L LO ready
                all) [
                  | inl (all_done, all_signed) ↦
                      rw (done, sign_actions) (inl (all_done, (signed, all_signed)))
                  | inr (e, n, failed, place, no_rejection, inside, before, behind) ↦
                      rw (done, sign_actions)
                        (inr (
                          e,
                          suc n,
                          failed,
                          omega (arith, place),
                          no_rejection,
                          omega arith,
                          (signed, before),
                          behind,
                        ))
                ]
        ]

  -- Let the chain of a group be valid, the validators consistent, and each action of a bundle made for
  -- the group: its key is the group's, rerandomized by the action's alpha. Then signing the bundle
  -- ends in one of two ways. Either it succeeds, and each action, its key unchanged, carries a
  -- signature that verifies for the sighash under this key. Or it fails with an error that names the
  -- place of an action: all actions before it are signed so, that one and those behind it are as they
  -- were, and the error is never that a signature of the session was rejected for the action.
  pub sign_pczt_orchard_bundle-ends :
      (sighash : Bytes) (g : GroupConfig C) (actions : List O.Action) (chain : ChainSim C)
      (validators : List (Node C)) (rng : C.Rng)
      → IsLawful C
      → IsLawfulOrchard O
      → IsReady g chain validators
      → All (IsFor O g) actions
      → (let (result, actions', _, _, _) =
            sign_pczt_orchard_bundle O to_string sighash actions chain validators rng in
          ((result ≡ ok tt) × AllSigned O sighash actions actions')
          ⊎ ((e : PcztSignError) × (result ≡ err e)
              × (place_of e < length actions)
              × AllSigned O sighash (take (place_of e) actions) (take (place_of e) actions')
              × (drop (place_of e) actions' ≡ drop (place_of e) actions)
              × (is_rejection e ≡ false)))
  unfolding sign_pczt_orchard_bundle
  sign_pczt_orchard_bundle-ends sighash g actions chain validators rng L LO r all =
      elim (sign_actions-Ends 0 sighash g actions chain validators rng L LO r all) [
        | inl done ↦ inl done
        | inr (e, n, failed, place, no_rejection, inside, before, behind) ↦
            let actions' = (sign_actions O to_string 0 sighash actions chain validators rng).1 in
            let here : n ≡ place_of e = omega (arith, place) in
            inr (
              e,
              failed,
              omega (arith, place),
              subst (λ m. AllSigned O sighash (take m actions) (take m actions')) here before,
              subst (λ m. drop m actions' ≡ drop m actions) here behind,
              no_rejection,
            )
      ]
