-- ===== src/Keygen/Participant.antt =====
-- sapphire-node/src/dkg.rs: the participant of a key generation over the chain. The participant and
-- the two generators are passed on as each step leaves them, also where it fails.
use project_sapphire.Base.{
  ℕ, Bool, true, false, not, Option, none, some, List, [], ◌∷◌, ◌++◌, String, Ord, pair_ord, Result,
  ok, err, if◌then◌else◌, ◌==◌, is_some, ◌&&◌,
}
use project_sapphire.Base.Map.{Map, get, contains_key, insert}
use project_sapphire.Core.{Bytes}
use project_sapphire.Frost.{Ciphersuite}
use project_sapphire.Chain.Tx.{EncPublicKey, Sealed, Tx, dkg_round1, dkg_round2, dkg_finalize}
use project_sapphire.Chain.State.{State, DkgCeremony, r1_complete, r2_complete}
use project_sapphire.Node.Signer.{Node, new_node}
use project_sapphire.Keygen.Envelope.{CryptoBox, EnvelopeError, seal_envelope, open_envelope}

-- `frost_core::keys::dkg`, and the JSON of its round-2 packages.
pub record DkgScheme {I : Type 0} (C : Ciphersuite I) : Type 1 where
  pub Secret1 : Type 0
  pub Secret2 : Type 0
  pub Round2Package : Type 0
  -- identifier, total, threshold
  pub part1 : I → ℕ → ℕ → C.Rng → Result (Secret1 × C.Round1Package) C.FrostError × C.Rng
  pub part2 : Secret1 → Map I C.Round1Package → Result (Secret2 × Map I Round2Package) C.FrostError
  pub part3 :
      Secret2
      → Map I C.Round1Package
      → Map I Round2Package
      → Result (C.KeyPackage × C.PublicKeyPackage) C.FrostError
  pub to_vec : Round2Package → Result Bytes String
  pub from_slice : Bytes → Result Round2Package String

pub data DkgError : Type 0 where
  frost : String → DkgError
  envelope : EnvelopeError → DkgError
  serde : String → DkgError
  inconsistent : String → DkgError

module _ {I : Type 0} {C : Ciphersuite I} (B : CryptoBox C.Rng) (D : DkgScheme C) where
  open C use {KeyPackage, PublicKeyPackage, Rng}

  pub record DkgParticipant : Type 0 where
    pub identifier : I
    pub enc_secret : B.SecretKey
    pub enc_public : EncPublicKey
    pub secret_r1 : Option D.Secret1
    pub secret_r2 : Option D.Secret2
    pub submitted_r1 : Bool
    pub submitted_r2 : Bool
    pub submitted_finalize : Bool
    pub key_package : Option KeyPackage
    pub public_key_package : Option PublicKeyPackage

  -- `DkgParticipant::new`
  abbrev pub new_participant : I → Rng → DkgParticipant × Rng
  new_participant identifier rng =
      let (enc_secret, next) = B.generate rng in
      (
        record {
          identifier = identifier;
          enc_secret = enc_secret;
          enc_public = record { key = B.public_key enc_secret };
          secret_r1 = none;
          secret_r2 = none;
          submitted_r1 = false;
          submitted_r2 = false;
          submitted_finalize = false;
          key_package = none;
          public_key_package = none;
        },
        next,
      )

  -- `is_complete`
  abbrev pub is_complete : DkgParticipant → Bool
  is_complete p = is_some p.key_package && is_some p.public_key_package

  abbrev pub Turn : Type 0 → Type 0
  Turn A = Result A DkgError × DkgParticipant × Rng × B.OsRng

module _ {I : Type 0} ⦃o : Ord I⦄ {C : Ciphersuite I} (B : CryptoBox C.Rng) (D : DkgScheme C) where
  open C use {KeyPackage, PublicKeyPackage, Rng, Round1Package, error_text}

  -- `others_r1`: the packages of everyone but this one.
  unfoldable pub others : I → Map I Round1Package → Map I Round1Package
  others me [] = []
  others me ((i, pkg) ∷ m) = let rest = others me m in if i == me then rest else (i, pkg) ∷ rest

  -- The part of round 1: what it pushes before it returns.
  unfoldable pub start_round1 :
      DkgParticipant B D → DkgCeremony C → Rng → B.OsRng → Turn B D (List (Tx C))
  start_round1 p ceremony rng os =
      let (result, rng') =
        D.part1 p.identifier ceremony.params.total ceremony.params.threshold rng in
      elim result [
        | err e ↦ (err (frost (error_text e)), p, rng', os)
        | ok (secret, pkg) ↦ (
          ok (dkg_round1 p.identifier pkg ∷ []),
          record p { secret_r1 = some secret; submitted_r1 = true },
          rng',
          os,
        )
      ]

  -- The loop that seals the packages of round 2.
  unfoldable pub seal_all :
      I
      → DkgCeremony C
      → Map I D.Round2Package
      → List (Tx C)
      → Rng
      → B.OsRng
      → Result (List (Tx C)) DkgError × Rng × B.OsRng
  seal_all me ceremony [] out rng os = (ok out, rng, os)
  seal_all me ceremony ((recipient, pkg) ∷ sent) out rng os =
      elim (get recipient ceremony.validators) [
        | none ↦ (err (inconsistent "recipient has no enc pubkey"), rng, os)
        | some recipient_pk ↦ elim (D.to_vec pkg) [
          | err e ↦ (err (serde e), rng, os)
          | ok plaintext ↦
              let (sealed, rng', os') = seal_envelope B rng os recipient_pk plaintext in
              seal_all me ceremony sent (out ++ (dkg_round2 me recipient sealed ∷ [])) rng' os'
        ]
      ]

  -- The end of round 2: the flag is set only where all packages are sealed.
  unfoldable pub finish_round2 :
      DkgParticipant B D → Result (List (Tx C)) DkgError × Rng × B.OsRng → Turn B D (List (Tx C))
  finish_round2 p (err e, rng, os) = (err e, p, rng, os)
  finish_round2 p (ok out, rng, os) = (ok out, record p { submitted_r2 = true }, rng, os)

  -- The part of round 2. The secret of round 1 is taken also where `part2` fails.
  unfoldable pub start_round2 :
      DkgParticipant B D → DkgCeremony C → Rng → B.OsRng → Turn B D (List (Tx C))
  unfolding seal_all finish_round2
  start_round2 p ceremony rng os = elim p.secret_r1 [
    | none ↦ (err (inconsistent "missing r1 secret for r2"), p, rng, os)
    | some secret ↦
        let taken = record p { secret_r1 = none } in
        elim (D.part2 secret (others p.identifier ceremony.round1)) [
          | err e ↦ (err (frost (error_text e)), taken, rng, os)
          | ok (secret_r2, sent) ↦
              finish_round2 (record taken { secret_r2 = some secret_r2 })
                (seal_all p.identifier ceremony sent [] rng os)
        ]
  ]

  -- The loop that opens the envelopes addressed to the participant.
  unfoldable pub open_all :
      I
      → B.SecretKey
      → Map (I × I) Sealed
      → Map I D.Round2Package
      → Result (Map I D.Round2Package) DkgError
  open_all me secret [] received = ok received
  open_all me secret (((from, to), sealed) ∷ round2) received =
      if to == me
      then elim (open_envelope B secret sealed) [
        | err e ↦ err (envelope e)
        | ok pt ↦ elim (D.from_slice pt) [
          | err e ↦ err (serde e)
          | ok pkg ↦ open_all me secret round2 (insert from pkg received)
        ]
      ]
      else open_all me secret round2 received

  -- The part of round 3. The secret of round 2 is taken also where `part3` fails.
  unfoldable pub start_finalize :
      DkgParticipant B D → DkgCeremony C → Rng → B.OsRng → Turn B D (List (Tx C))
  unfolding open_all
  start_finalize p ceremony rng os = elim (open_all p.identifier p.enc_secret ceremony.round2 []) [
    | err e ↦ (err e, p, rng, os)
    | ok received ↦ elim p.secret_r2 [
      | none ↦ (err (inconsistent "missing r2 secret for finalize"), p, rng, os)
      | some secret ↦
          let taken = record p { secret_r2 = none } in
          elim (D.part3 secret (others p.identifier ceremony.round1) received) [
            | err e ↦ (err (frost (error_text e)), taken, rng, os)
            | ok (key_pkg, pkp) ↦ (
              ok (dkg_finalize p.identifier pkp ∷ []),
              record taken {
                key_package = some key_pkg;
                public_key_package = some pkp;
                submitted_finalize = true;
              },
              rng,
              os,
            )
          ]
    ]
  ]

  -- From "Round 3 / Finalize" on.
  unfoldable pub react_finalize :
      DkgParticipant B D → DkgCeremony C → Rng → B.OsRng → Turn B D (List (Tx C))
  unfolding start_finalize
  react_finalize p ceremony rng os =
      if r2_complete ceremony && not p.submitted_finalize
      then (if contains_key p.identifier ceremony.finalize
          then (ok [], record p { submitted_finalize = true }, rng, os)
          else start_finalize p ceremony rng os)
      else (ok [], p, rng, os)

  -- From "Round 2" on.
  unfoldable pub react_round2 :
      DkgParticipant B D → DkgCeremony C → Rng → B.OsRng → Turn B D (List (Tx C))
  unfolding react_finalize start_round2
  react_round2 p ceremony rng os =
      if not (r1_complete ceremony)
      then (ok [], p, rng, os)
      else if p.submitted_r2
      then react_finalize p ceremony rng os
      else start_round2 p ceremony rng os

  -- From "Round 1" on.
  unfoldable pub react_round1 :
      DkgParticipant B D → DkgCeremony C → Rng → B.OsRng → Turn B D (List (Tx C))
  unfolding react_round2 start_round1
  react_round1 p ceremony rng os =
      if p.submitted_r1
      then react_round2 p ceremony rng os
      else if contains_key p.identifier ceremony.round1
      then react_round2 (record p { submitted_r1 = true }) ceremony rng os
      else start_round1 p ceremony rng os

  -- `DkgParticipant::react`
  unfoldable pub participate : DkgParticipant B D → State C → Rng → B.OsRng → Turn B D (List (Tx C))
  unfolding react_round1
  participate p state rng os =
      if is_some state.group then (ok [], p, rng, os) else elim state.ceremony [
        | none ↦ (ok [], p, rng, os)
        | some ceremony ↦
            if contains_key p.identifier ceremony.validators
            then react_round1 p ceremony rng os
            else (ok [], p, rng, os)
      ]

  -- `into_node`
  unfoldable pub into_node : DkgParticipant B D → Result (Node C) DkgError
  into_node p = elim p.key_package [
    | none ↦ err (inconsistent "DKG not complete: no key package")
    | some key_package ↦ elim p.public_key_package [
      | none ↦ err (inconsistent "DKG not complete: no PKP")
      | some pkp ↦ ok (new_node C (record { key_package = key_package; public_key_package = pkp }))
    ]
  ]
