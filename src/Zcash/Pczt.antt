-- ===== src/Zcash/Pczt.antt =====
-- sapphire-zcash/src/pczt.rs: signing every action of an Orchard bundle. The bundle's actions, the
-- chain, the validators and the generator are returned as they are left, also where it fails.
use project_sapphire.Base.{
  ℕ, ◌+◌, not, Option, none, some, List, [], ◌∷◌, String, Ord, Result, ok, err, length, eqb,
  if◌then◌else◌,
}
use project_sapphire.Core.{Bytes}
use project_sapphire.Frost.{Ciphersuite}
use project_sapphire.Chain.State.{ApplyError}
use project_sapphire.Chain.Sim.{ChainSim}
use project_sapphire.Node.Signer.{Node}
use project_sapphire.Zcash.Session.{SignError, drive_signing_session}

-- What is used of the crates orchard, pasta_curves and reddsa.
pub record Orchard {I : Type 0} (C : Ciphersuite I) : Type 1 where
  pub Scalar : Type 0
  pub to_repr : Scalar → Bytes
  pub deserialize : Bytes → Option C.Randomizer
  pub serialize : C.Signature → Option Bytes
  pub SpendAuthSig : Type 0
  pub from : Bytes → SpendAuthSig
  pub Action : Type 0
  pub alpha : Action → Option Scalar
  -- With the text of an error by `{:?}`; the action is changed in place.
  pub apply_signature : Bytes → SpendAuthSig → Action → Result (Unit {0}) String × Action
  -- The key of an action and its signature: no code here reads these.
  pub rk : Action → C.VerifyingKey
  pub spend_auth_sig : Action → Option SpendAuthSig

pub data PcztSignError : Type 0 where
  action_missing_alpha : ℕ → PcztSignError
  sign : ℕ → SignError → PcztSignError
  conversion : ℕ → PcztSignError
  apply_rejected : ℕ → String → PcztSignError

module _ {I : Type 0} ⦃o : Ord I⦄ {C : Ciphersuite I} (O : Orchard C)
    (to_string : ApplyError → String) where
  open C use {Rng, Signature}
  open O use {Action}

  -- The end of an action: the error gets the action's place.
  unfoldable pub place :
      ℕ → Result (Unit {0}) String × Action → Result (Unit {0}) PcztSignError × Action
  place idx (ok _, action) = (ok tt, action)
  place idx (err e, action) = (err (apply_rejected idx e), action)

  -- What follows the session of an action.
  unfoldable pub inject :
      ℕ → Bytes → Action → Result Signature SignError → Result (Unit {0}) PcztSignError × Action
  unfolding place
  inject idx sighash action (err source) = (err (sign idx source), action)
  inject idx sighash action (ok signature) = elim (O.serialize signature) [
    | none ↦ (err (conversion idx), action)
    | some sig_bytes ↦
        if not (eqb (length sig_bytes) 64)
        then (err (conversion idx), action)
        else place idx (O.apply_signature sighash (O.from sig_bytes) action)
  ]

  abbrev pub Signing : Type 0 → Type 0
  Signing A = Result (Unit {0}) PcztSignError × A × ChainSim C × List (Node C) × Rng

  -- The body of the loop.
  unfoldable pub sign_action :
      ℕ → Bytes → Action → ChainSim C → List (Node C) → Rng → Signing Action
  unfolding inject
  sign_action idx sighash action chain validators rng = elim (O.alpha action) [
    | none ↦ (err (action_missing_alpha idx), action, chain, validators, rng)
    | some alpha_scalar ↦ elim (O.deserialize (O.to_repr alpha_scalar)) [
      | none ↦ (err (conversion idx), action, chain, validators, rng)
      | some alpha_randomizer ↦
          let (signature, chain', validators', rng') =
            drive_signing_session to_string chain validators sighash alpha_randomizer rng in
          let (result, action') = inject idx sighash action signature in
          (result, action', chain', validators', rng')
    ]
  ]

  -- The loop, from this place on.
  unfoldable pub sign_actions :
      ℕ → Bytes → List Action → ChainSim C → List (Node C) → Rng → Signing (List Action)
  unfolding sign_action
  sign_actions idx sighash [] chain validators rng = (ok tt, [], chain, validators, rng)
  sign_actions idx sighash (action ∷ actions) chain validators rng =
      let (result, action', chain', validators', rng') =
        sign_action idx sighash action chain validators rng in
      let (rest, actions', chain'', validators'', last) =
        sign_actions (idx + 1) sighash actions chain' validators' rng' in
      elim result [
        | err e ↦ (err e, action' ∷ actions, chain', validators', rng')
        | ok _ ↦ (rest, action' ∷ actions', chain'', validators'', last)
      ]

  unfoldable pub sign_pczt_orchard_bundle :
      Bytes → List Action → ChainSim C → List (Node C) → Rng → Signing (List Action)
  unfolding sign_actions
  sign_pczt_orchard_bundle sighash actions chain validators rng =
      sign_actions 0 sighash actions chain validators rng
