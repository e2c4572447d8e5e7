-- ===== src/Tests/CeremonyExamples.antt =====
-- A key generation for three over a small scheme, and the theorems on it.
use project_sapphire.Base.{
  ℕ, ◌+◌, ◌*◌, ◌≡◌, ◌↔◌, refl, true, subst, [], ◌∷◌, nat_ord, Result, ok, err, arith, eqb,
  if◌then◌else◌,
}
use project_sapphire.Base.Map.{contains_key, insert, get, remove}
use project_sapphire.Keygen.Participant.{DkgScheme}
use project_sapphire.Keygen.Ceremony.{
  returned, panicked, generate_with_dkg, deal1, conclude, deal2, deal3, preallocate, others_r1,
  distribute, agree,
}
use project_sapphire.Keygen.Rounds.{IsAddressed}
use project_sapphire.Keygen.Generate.{
  Generated, generate_with_dkg-panics_iff, generate_with_dkg-Generated,
}
use project_sapphire.Tests.Scheme.{scheme, scheme-IsLawful, Fault, zero_share}
use project_sapphire.Tests.Samples.{two_of_three}

-- A package of round 2 repeats the one of round 1 of its recipient.
abbrev pub protocol : DkgScheme scheme
protocol = record {
  Secret1 = ℕ;
  Secret2 = ℕ;
  Round2Package = ℕ;
  part1 = λ i total threshold rng. (ok (rng, i * 10), rng + 1);
  part2 = λ secret packages. ok (secret, packages);
  part3 = λ secret packages received. ok (secret + 1, 7);
  to_vec = λ p. ok (p ∷ []);
  from_slice = λ bytes. ok 1;
}

pub protocol-IsAddressed : IsAddressed protocol
protocol-IsAddressed = record {
  part2-recipients = λ secret others secret2 sent h k m.
      let same : sent ≡ others = cc in subst (λ s. contains_key k s ≡ true) same m;
}

abbrev pub id_of_number : ℕ → Result ℕ Fault
id_of_number i = if eqb i 0 then err zero_share else ok i

generated :
    (generate_with_dkg protocol id_of_number two_of_three 5).0
    ≡ returned ((1, 6) ∷ (2, 7) ∷ (3, 8) ∷ [], 7)
unfolding generate_with_dkg deal1 conclude deal2 deal3 preallocate others_r1 distribute agree insert
    get remove
generated = refl

generate_with_dkg-Generated_example :
    Generated protocol id_of_number two_of_three ((1, 6) ∷ (2, 7) ∷ (3, 8) ∷ [], 7)
generate_with_dkg-Generated_example =
    generate_with_dkg-Generated protocol id_of_number two_of_three 5
      ((1, 6) ∷ (2, 7) ∷ (3, 8) ∷ [], 7) scheme-IsLawful protocol-IsAddressed (omega arith)
      generated

generate_with_dkg-panics_iff_example :
    ((generate_with_dkg protocol id_of_number two_of_three 5).0 ≡ panicked) ↔ (◌≡◌ {A = ℕ} 3 0)
generate_with_dkg-panics_iff_example =
    generate_with_dkg-panics_iff protocol id_of_number two_of_three 5 scheme-IsLawful
      protocol-IsAddressed
