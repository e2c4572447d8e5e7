-- ===== src/Keygen/Transcript.antt =====
-- How one key package of a key generation came about.
use project_sapphire.Base.{
  ◌≡◌, refl, sym, ap, ◌∙◌, inl, inr, none, some, [], Ord, ok, ◌==◌, if◌then◌else◌,
}
use project_sapphire.Base.Map.{Map, get}
use project_sapphire.Frost.{Ciphersuite}
use project_sapphire.Keygen.Participant.{DkgScheme}
use project_sapphire.Keygen.Ceremony.{Inbox, preallocate, others_r1}
use project_sapphire.Keygen.Posted.{
  or_else, or_else-none, inbox_at, posted, get-others_r1, inbox_at-preallocate, inbox_at_box,
}
use project_sapphire.Keygen.Rounds.{Dealt2}
use project_sapphire.Keygen.Whole.{Computed}
use project_sapphire.Keygen.First.{get-nil}

module _ {I : Type 0} ⦃o : Ord I⦄ {C : Ciphersuite I} (D : DkgScheme C) where
  -- How the key package of participant `k` came about: part 2 ran on its secret of round 1 and on
  -- everyone else's packages; part 3 ran on what part 2 kept, on the same packages, and on a box that
  -- holds from each sender what part 2 of that sender made for `k`, and nothing else.
  pub record Transcript (secrets : Map I D.Secret1) (publics : Map I C.Round1Package)
      (pkp : C.PublicKeyPackage) (k : I) (key_pkg : C.KeyPackage) : Type 0 where
    pub others : Map I C.Round1Package
    pub all_others : (j : I) → get j others ≡ (if j == k then none else get j publics)
    pub secret1 : D.Secret1
    pub own : get k secrets ≡ some secret1
    pub secret2 : D.Secret2
    pub sent : Map I D.Round2Package
    pub second : D.part2 secret1 others ≡ ok (secret2, sent)
    pub received : Map I D.Round2Package
    pub mail : (s : I) → get s received ≡ posted D publics secrets k s
    pub computed : C.PublicKeyPackage
    pub third : D.part3 secret2 others received ≡ ok (key_pkg, computed)
    pub agreed : C.verifying_key pkp ≡ C.verifying_key computed

  empty_inbox : (k s : I) → inbox_at D [] k s ≡ none
  unfolding inbox_at get
  empty_inbox k s = refl

  -- The packages of round 2 are where they belong.
  Dealt2-mail :
      (secrets1 : Map I D.Secret1) (publics1 : Map I C.Round1Package)
      (dealt : Map I D.Secret2 × Inbox D) (k s : I) (received : Map I D.Round2Package)
      → Dealt2 D publics1 secrets1 [] (preallocate D publics1 []) dealt
      → get k dealt.1 ≡ some received
      → get s received ≡ posted D publics1 secrets1 k s
  Dealt2-mail secrets1 publics1 dealt k s received d there =
      sym (inbox_at_box D k s received dealt.1 there)
      ∙ d.mail k s
      ∙ ap (or_else (posted D publics1 secrets1 k s))
          (inbox_at-preallocate D publics1 [] empty_inbox k s)
      ∙ or_else-none (posted D publics1 secrets1 k s)

  pub Computed-Transcript :
      (secrets1 : Map I D.Secret1) (publics1 : Map I C.Round1Package)
      (dealt : Map I D.Secret2 × Inbox D) (pkp : C.PublicKeyPackage) (k : I)
      (key_pkg : C.KeyPackage)
      → Dealt2 D publics1 secrets1 [] (preallocate D publics1 []) dealt
      → Computed D publics1 dealt.0 dealt.1 k key_pkg (some pkp)
      → Transcript secrets1 publics1 pkp k key_pkg
  Computed-Transcript secrets1 publics1 dealt pkp k key_pkg d
        (secret2, received, computed, existing, own, mail, made, group, same) =
      elim (d.second k secret2 own) [
        | inl old ↦ absurd (get-nil k secret2 old)
        | inr (secret1, sent, there, second) ↦ record {
          others = others_r1 D k publics1;
          all_others = λ j. get-others_r1 D j k publics1;
          secret1 = secret1;
          own = there;
          secret2 = secret2;
          sent = sent;
          second = second;
          received = received;
          mail = λ s. Dealt2-mail secrets1 publics1 dealt k s received d mail;
          computed = computed;
          third = made;
          agreed = cc;
        }
      ]
