-- ===== src/Chain/Signature.antt =====
-- What a completed request on the chain vouches for.
use project_sapphire.Base.{◌≡◌, true, Ord, some, length, subst, arith}
use project_sapphire.Base.Map.{Set, get}
use project_sapphire.Base.Map.Counting.{KeysWithin}
use project_sapphire.Core.{Uuid, uuid_ord}
use project_sapphire.Frost.{Ciphersuite, IsLawful}
use project_sapphire.Chain.State.{completed, RequestEntry, GroupConfig, State, initial}
use project_sapphire.Chain.Validity.{IsValid, IsEntry, IsStatus}
use project_sapphire.Chain.Reach.{Reaches, reachable-IsValid}

module _ {I : Type 0} ⦃o : Ord I⦄ {C : Ciphersuite I} where
  open C use {
    Signature, verify, randomized_verifying_key, from_randomizer, verifying_key, message,
    signing_package,
  }

  pub valid-verifies :
      (t : State C) (request_id : Uuid) (e : RequestEntry C) (g : GroupConfig C)
      (participants : Set I) (signature : Signature)
      → IsLawful C
      → IsValid t
      → t.group ≡ some g
      → get request_id t.requests ≡ some e
      → e.status ≡ completed participants signature
      → (verify
            (randomized_verifying_key (from_randomizer (verifying_key g.pkp) e.randomizer))
            e.message
            signature
          ≡ true)
        × (length participants ≡ g.params.threshold)
        × KeysWithin participants g.validators
  valid-verifies t request_id e g participants signature L v found there done =
      let entry : IsEntry g request_id e = v.entry-IsEntry g request_id e found there in
      let (a, aggregated) : IsStatus g e.message e.randomizer (completed participants signature) =
        subst (IsStatus g e.message e.randomizer) done entry.status-IsStatus in
      let params = from_randomizer (verifying_key g.pkp) e.randomizer in
      (
        ground (
          arith,
          L.aggregate-verifies a.pkg a.shares g.pkp params signature,
          a.session.packed,
          L.message-signing_package a.session.commitments e.message,
        ),
        a.session.as_many,
        a.session.participants_within,
      )

  -- A signature that the chain records verifies, for the message of its request, under the group's
  -- key rerandomized by the randomizer of the request; and as many validators took part as the
  -- threshold says, all of the group.
  pub completed-verifies :
      {t : State C} (request_id : Uuid) (e : RequestEntry C) (g : GroupConfig C)
      (participants : Set I) (signature : Signature)
      → IsLawful C
      → Reaches (initial C) t
      → t.group ≡ some g
      → get request_id t.requests ≡ some e
      → e.status ≡ completed participants signature
      → (verify
            (randomized_verifying_key (from_randomizer (verifying_key g.pkp) e.randomizer))
            e.message
            signature
          ≡ true)
        × (length participants ≡ g.params.threshold)
        × KeysWithin participants g.validators
  completed-verifies {t} request_id e g participants signature L r found there done =
      valid-verifies t request_id e g participants signature L (reachable-IsValid L r) found there
        done
