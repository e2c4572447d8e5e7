-- ===== src/Zcash/Bundle.antt =====
-- What signing a bundle leaves of each of its actions.
use project_sapphire.Base.{
  ℕ, ◌≡◌, refl, subst, Bool, true, false, not, some, List, String, Ord, Result, ok, err, length,
  eqb, if_elim, option_elim, inl, inr, ◌⊎◌, arith,
}
use project_sapphire.Core.{Bytes}
use project_sapphire.Frost.{Ciphersuite, IsLawful}
use project_sapphire.Chain.State.{ApplyError, GroupConfig}
use project_sapphire.Chain.Sim.{ChainSim}
use project_sapphire.Node.Signer.{Node}
use project_sapphire.Zcash.Session.{SignError, drive_signing_session}
use project_sapphire.Zcash.Sound.{drive_signing_session-IsSigned}
use project_sapphire.Zcash.Ready.{IsReady, drive_signing_session-IsReady}
use project_sapphire.Zcash.Pczt.{
  Orchard, PcztSignError, action_missing_alpha, sign, conversion, apply_rejected, place, inject,
  sign_action,
}

-- `apply_signature` takes exactly the signatures that verify under the action's key, stores them, and
-- changes nothing else; a signature that it refuses changes nothing.
pub record IsLawfulOrchard {I : Type 0} {C : Ciphersuite I} (O : Orchard C) : Type 0 where
  pub accepts :
      (sighash bytes : Bytes) (signature : C.Signature) (action : O.Action)
      → O.serialize signature ≡ some bytes
      → length bytes ≡ 64
      → C.verify (O.rk action) sighash signature ≡ true
      → (action' : O.Action) × (O.apply_signature sighash (O.from bytes) action ≡ (ok tt, action'))
        × (O.spend_auth_sig action' ≡ some (O.from bytes))
        × (O.rk action' ≡ O.rk action)

abbrev pub place_of : PcztSignError → ℕ
place_of (action_missing_alpha i) = i
place_of (sign i e) = i
place_of (conversion i) = i
place_of (apply_rejected i e) = i

abbrev pub is_rejection : PcztSignError → Bool
is_rejection (apply_rejected i e) = true
is_rejection _ = false

module _ {I : Type 0} ⦃o : Ord I⦄ {C : Ciphersuite I} (O : Orchard C) where
  open C use {from_randomizer, randomized_verifying_key, verifying_key}
  open O use {Action}

  -- The Constructor has set the key of the action to the group's, rerandomized by the action's alpha.
  abbrev pub IsFor : GroupConfig C → Action → Type 0
  IsFor g action =
      (s : O.Scalar) (alpha : C.Randomizer)
      → O.alpha action ≡ some s
      → O.deserialize (O.to_repr s) ≡ some alpha
      → O.rk action ≡ randomized_verifying_key (from_randomizer (verifying_key g.pkp) alpha)

  -- The action is left with a signature that verifies under its own key.
  pub record IsSignedAs (sighash : Bytes) (action action' : Action) : Type 0 where
    pub signature : C.Signature
    pub bytes : Bytes
    pub serialized : O.serialize signature ≡ some bytes
    pub stored : O.spend_auth_sig action' ≡ some (O.from bytes)
    pub same_key : O.rk action' ≡ O.rk action
    pub verifies : C.verify (O.rk action) sighash signature ≡ true

module _ {I : Type 0} ⦃o : Ord I⦄ {C : Ciphersuite I} (O : Orchard C)
    (to_string : ApplyError → String) where
  open C use {from_randomizer, randomized_verifying_key, verifying_key}
  open O use {Action}

  -- The action is left alone, with an error of this place that is no rejected signature.
  abbrev pub Stops : ℕ → Action → Result (Unit {0}) PcztSignError × Action → Type 0
  Stops idx action m =
      (e : PcztSignError) × (m.0 ≡ err e)
      × (m.1 ≡ action)
      × (place_of e ≡ idx)
      × (is_rejection e ≡ false)

  -- Either that, or a session's signature is stored.
  abbrev Injects :
      ℕ
      → Bytes
      → Action
      → Result C.Signature SignError
      → Result (Unit {0}) PcztSignError × Action
      → Type 0
  Injects idx sighash action r m =
      Stops idx action m
      ⊎ ((signature : C.Signature) × (r ≡ ok signature)
          × (m.0 ≡ ok tt)
          × IsSignedAs O sighash action m.1)

  inject-Injects :
      (idx : ℕ) (sighash : Bytes) (action : Action) (r : Result C.Signature SignError)
      → IsLawfulOrchard O
      → ((signature : C.Signature)
          → r ≡ ok signature
          → C.verify (O.rk action) sighash signature ≡ true)
      → Injects idx sighash action r (inject O to_string idx sighash action r)
  unfolding inject place
  inject-Injects idx sighash action (err e) L good = inl (sign idx e, refl, refl, refl, refl)
  inject-Injects idx sighash action (ok signature) L good =
      option_elim (Injects idx sighash action (ok signature)) (O.serialize signature)
        (λ h. inl (conversion idx, refl, refl, refl, refl))
        (λ bytes serialized.
          if_elim (Injects idx sighash action (ok signature)) (not (eqb (length bytes) 64))
            (λ h. inl (conversion idx, refl, refl, refl, refl))
            (λ h.
              let verifies = good signature refl in
              let (action', applied, stored, same_key) =
                L.accepts sighash bytes signature action serialized (ground arith) verifies in
              rw applied (
                inr (
                  signature,
                  refl,
                  refl,
                  record {
                    signature = signature;
                    bytes = bytes;
                    serialized = serialized;
                    stored = stored;
                    same_key = same_key;
                    verifies = verifies;
                  },
                ))))

  -- The same of a whole round of the loop: where the action is signed all is ready for the next one.
  abbrev pub Round :
      ℕ
      → Bytes
      → GroupConfig C
      → Action
      → Result (Unit {0}) PcztSignError × Action × ChainSim C × List (Node C) × C.Rng
      → Type 0
  Round idx sighash g action (result, action', chain, validators, rng) =
      Stops idx action (result, action')
      ⊎ ((result ≡ ok tt) × IsSignedAs O sighash action action' × IsReady g chain validators)

  session-verifies :
      (sighash : Bytes) (g : GroupConfig C) (action : Action) (s : O.Scalar) (alpha : C.Randomizer)
      (chain : ChainSim C) (validators : List (Node C)) (rng : C.Rng)
      → IsLawful C
      → IsReady g chain validators
      → IsFor O g action
      → O.alpha action ≡ some s
      → O.deserialize (O.to_repr s) ≡ some alpha
      → (signature : C.Signature)
      → (drive_signing_session to_string chain validators sighash alpha rng).0 ≡ ok signature
      → C.verify (O.rk action) sighash signature ≡ true
  session-verifies sighash g action s alpha chain validators rng L r for_group there converted
        signature signed =
      let (g', found, verified) =
        drive_signing_session-IsSigned to_string chain validators sighash alpha rng signature L
          r.state-IsValid r.pending r.consistent signed in
      let ready =
        drive_signing_session-IsReady to_string chain validators sighash alpha rng signature g L r
          signed in
      let same : g' ≡ g = cc (found, ready.group_there) in
      rw (for_group s alpha there converted) (
        subst
          (λ h.
            C.verify (randomized_verifying_key (from_randomizer (verifying_key h.pkp) alpha))
              sighash signature
            ≡ true)
          same verified)

  pub sign_action-Round :
      (idx : ℕ) (sighash : Bytes) (g : GroupConfig C) (action : Action) (chain : ChainSim C)
      (validators : List (Node C)) (rng : C.Rng)
      → IsLawful C
      → IsLawfulOrchard O
      → IsReady g chain validators
      → IsFor O g action
      → Round idx sighash g action (sign_action O to_string idx sighash action chain validators rng)
  unfolding sign_action
  sign_action-Round idx sighash g action chain validators rng L LO r for_group =
      option_elim (Round idx sighash g action) (O.alpha action)
        (λ h. inl (action_missing_alpha idx, refl, refl, refl, refl))
        (λ s alpha_there.
          option_elim (Round idx sighash g action) (O.deserialize (O.to_repr s))
            (λ h. inl (conversion idx, refl, refl, refl, refl))
            (λ alpha converted.
              let result = (drive_signing_session to_string chain validators sighash alpha rng).0 in
              elim (inject-Injects idx sighash action result LO (
                session-verifies sighash g action s alpha chain validators rng L r for_group
                  alpha_there converted)) [
                    | inl stops ↦ inl stops
                    | inr (signature, signed, done, stored) ↦ inr (
                      done,
                      stored,
                      drive_signing_session-IsReady to_string chain validators sighash alpha rng
                          signature g L r signed,
                    )
                  ]))
