-- ===== src/Tests/KeygenExamples.antt =====
-- A participant in the sample ceremony over a small box, and the theorems at these runs.
use project_sapphire.Base.{ℕ, ◌+◌, ◌*◌, ◌≡◌, refl, some, [], ◌∷◌, nat_ord, Result, ok, err, String}
use project_sapphire.Core.{Bytes}
use project_sapphire.Chain.Tx.{Sealed}
use project_sapphire.Keygen.Envelope.{
  CryptoBox, IsLawfulBox, seal_envelope, open_envelope, open_envelope-seal_envelope,
}
use project_sapphire.Keygen.Participant.{DkgScheme, DkgParticipant, new_participant, participate}
use project_sapphire.Keygen.Laws.{IsFit, participate-IsFit}
use project_sapphire.Tests.Scheme.{scheme}
use project_sapphire.Tests.Samples.{after, begin}
use project_sapphire.Tests.EscrowExamples.{zeros}

abbrev pub box : CryptoBox ℕ
box = record {
  SecretKey = ℕ;
  generate = λ rng. (rng, rng + 1);
  public_key = λ s. s ∷ zeros 31;
  OsRng = ℕ;
  generate_nonce = λ os. (os ∷ zeros 23, os + 1);
  encrypt = λ theirs mine nonce text. text;
  decrypt = λ theirs mine nonce ct. some ct;
}

box-IsLawfulBox : IsLawfulBox box
box-IsLawfulBox = record {
  length-public_key = λ s. refl;
  length-nonce = λ os. refl;
  decrypt-encrypt = λ mine theirs nonce text. refl;
}

abbrev decode : Bytes → Result ℕ String
decode [] = err "EOF while parsing"
decode (p ∷ _) = ok p

abbrev dkg : DkgScheme scheme
dkg = record {
  Secret1 = ℕ;
  Secret2 = ℕ;
  Round2Package = ℕ;
  part1 = λ i total threshold rng. (ok (rng, i * 10), rng + 1);
  part2 = λ secret packages. ok (secret, (2, 20) ∷ (3, 30) ∷ []);
  part3 = λ secret packages received. ok (1, 7);
  to_vec = λ p. ok (p ∷ []);
  from_slice = decode;
}

abbrev participant : DkgParticipant box dkg
participant = (new_participant box dkg 1 9).0

open_envelope-seal_envelope_example :
    open_envelope box 5 (seal_envelope box 1 2 (record { key = box.public_key 5 }) (8 ∷ 9 ∷ [])).0
    ≡ ok (8 ∷ 9 ∷ [])
open_envelope-seal_envelope_example =
    open_envelope-seal_envelope box 1 2 5 (8 ∷ 9 ∷ []) box-IsLawfulBox

abbrev stub : Sealed
stub = record { envelope = 1 ∷ 2 ∷ [] }

participate-IsFit_example :
    IsFit box dkg (after (begin ∷ [])) 1 (participate box dkg participant (after (begin ∷ [])) 3 4)
participate-IsFit_example = participate-IsFit box dkg participant (after (begin ∷ [])) 3 4
