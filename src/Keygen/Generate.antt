-- ===== src/Keygen/Generate.antt =====
-- The whole key generation: when it panics, and what it returns.
use project_sapphire.Base.{
  ℕ, zero, suc, ◌≡◌, ◌≢◌, ◌≤◌, ◌↔◌, refl, sym, ap, subst, ◌∙◌, inl, inr, true, false, Option, none,
  some, [], Ord, Result, ok, err, arith, Result-cases, Bool-cases, Option-cases, eqb, eqb→eq,
}
use project_sapphire.Base.Map.{Map, get, contains_key}
use project_sapphire.Core.{MpcParams, frost}
use project_sapphire.Frost.{Ciphersuite, IsLawful}
use project_sapphire.Keygen.Participant.{DkgScheme}
use project_sapphire.Keygen.Ceremony.{
  returned, failed, panicked, ◌>>=◌, expect, deal1, Packages1, Inbox, preallocate, deal2, deal3,
  GroupKeys, conclude, generate_with_dkg,
}
use project_sapphire.Keygen.Rounds.{
  Ensures, >>=-Ensures, Within, contains-nil, IsAddressed, contains-preallocate, Dealt2,
  deal2-Ensures,
}
use project_sapphire.Keygen.Whole.{Agreed, Computed, Dealt3, deal3-Ensures}
use project_sapphire.Keygen.First.{IsNumbered, IsFirst, Dealt1, deal1-Ensures, Dealt1-IsFirst}
use project_sapphire.Keygen.Transcript.{Transcript, Computed-Transcript}

true-ne-false : true ≡ false → ⊥
true-ne-false h = cc

module _ {I : Type 0} ⦃o : Ord I⦄ {C : Ciphersuite I} (D : DkgScheme C)
    (try_into : ℕ → Result I C.FrostError) where
  -- What a key generation returns: a key package for each identifier, by the three parts of the
  -- protocol.
  pub record Generated (params : MpcParams) (keys : GroupKeys D) : Type 0 where
    pub secrets : Map I D.Secret1
    pub publics : Map I C.Round1Package
    pub numbered : (k : I) → (contains_key k keys.0 ≡ true) ↔ IsNumbered D try_into 1 params.total k
    pub published : (k : I) → contains_key k publics ≡ contains_key k keys.0
    pub first :
        (k : I) (secret : D.Secret1)
        → get k secrets ≡ some secret
        → IsFirst D try_into params publics k secret
    pub transcripts :
        (k : I) (key_pkg : C.KeyPackage)
        → get k keys.0 ≡ some key_pkg
        → Transcript D secrets publics keys.1 k key_pkg

  empty-Agreed :
      (publics : Map I C.Round1Package) (secrets2 : Map I D.Secret2) (inbox2 : Inbox D)
      → Agreed D publics secrets2 inbox2 none []
  unfolding get
  empty-Agreed publics secrets2 inbox2 k key_pkg h = cc

  nonempty : {V : Type 0} (k : I) (m : Map I V) → contains_key k m ≡ true → m ≢ []
  nonempty {V} k m h e = absurd (true-ne-false (sym h ∙ ap (contains_key k) e ∙ contains-nil V k))

  last :
      (params : MpcParams) (dealt : Packages1 D) (dealt2 : Map I D.Secret2 × Inbox D)
      (keys : Map I C.KeyPackage) (group : Option C.PublicKeyPackage) (id : I)
      → try_into 1 ≡ ok id
      → 1 ≤ params.total
      → Dealt1 D try_into params 1 params.total ([], []) dealt
      → Dealt2 D dealt.1 dealt.0 [] (preallocate D dealt.1 []) dealt2
      → Dealt3 D dealt.1 dealt2.0 dealt2.1 dealt2.0 [] none (keys, group)
      → Ensures (Generated params) (expect group >>= λ pkp. returned (keys, pkp))
  last params (secrets1, publics1) (secrets2, inbox2) keys group id named some_there d d2 d3 =
      let same2 : (k : I) → contains_key k secrets2 ≡ contains_key k secrets1 =
        λ k. d2.keys k ∙ rw (contains-nil D.Secret2 k) refl in
      let same : (k : I) → contains_key k keys ≡ contains_key k publics1 =
        λ k. d3.keys k ∙ rw (contains-nil C.KeyPackage k) (same2 k ∙ d.same k) in
      let first : contains_key id publics1 ≡ true =
        d.present id (inr (1, omega arith, omega arith, named)) in
      elim (Option-cases group) [
        | inl none_there ↦
            absurd
              (d3.grouped (λ _. nonempty id secrets2 (same2 id ∙ d.same id ∙ first)) none_there)
        | inr (pkp, there) ↦ rw there (record {
          secrets = secrets1;
          publics = publics1;
          numbered = λ k. (
            (λ m. elim (d.numbered k (sym (same k) ∙ m)) [
              | inl old ↦ absurd (true-ne-false (sym old ∙ contains-nil C.Round1Package k))
              | inr numbered ↦ numbered
            ]),
            (λ numbered. same k ∙ d.present k (inr numbered)),
          );
          published = λ k. sym (same k);
          first = Dealt1-IsFirst D try_into params (secrets1, publics1) d;
          transcripts = λ k key_pkg h.
              Computed-Transcript D secrets1 publics1 (secrets2, inbox2) pkp k key_pkg d2
                (subst (Computed D publics1 secrets2 inbox2 k key_pkg) there
                  (d3.agreed k key_pkg h));
        })
      ]

  conclude-Ensures :
      (params : MpcParams) (dealt : Packages1 D)
      → IsLawful C
      → IsAddressed D
      → 1 ≤ params.total
      → (id : I) → try_into 1 ≡ ok id
      → Dealt1 D try_into params 1 params.total ([], []) dealt
      → Ensures (Generated params) (conclude D dealt)
  unfolding conclude
  conclude-Ensures params (secrets1, publics1) L A some_there id named d =
      let empty : Inbox D = [] in
      let inbox = preallocate D publics1 empty in
      let boxes : Within publics1 inbox =
        λ k m. ground (arith, contains-preallocate D publics1 empty k) in
      >>=-Ensures (Dealt2 D publics1 secrets1 [] inbox) _ (deal2 D publics1 secrets1 [] inbox) _
        (deal2-Ensures D publics1 secrets1 [] inbox A boxes d.sorted tt)
        (λ (secrets2, inbox2) d2.
          >>=-Ensures (Dealt3 D publics1 secrets2 inbox2 secrets2 [] none) _
            (deal3 D publics1 secrets2 inbox2 [] none) _
            (deal3-Ensures D publics1 secrets2 inbox2 secrets2 inbox2 [] none L d2.sorted
              (λ k m.
                ground (arith, d2.keys k, contains-nil D.Secret2 k, d.same k, boxes k, d2.boxes k))
              (record { own = λ k s h. h; mail = λ k h. refl })
              (empty-Agreed publics1 secrets2 inbox2))
            (λ (keys, group) d3.
              last params (secrets1, publics1) (secrets2, inbox2) keys group id named some_there d
                d2 d3))

  deal1_refused :
      (n : ℕ) (params : MpcParams) (secrets : Map I D.Secret1) (publics : Map I C.Round1Package)
      (rng : C.Rng) (e : C.FrostError)
      → 1 ≤ n
      → try_into 1 ≡ err e
      → (deal1 D try_into n 1 params (secrets, publics) rng).0 ≡ failed (frost (C.error_text e))
  unfolding deal1
  deal1_refused zero params secrets publics rng e h refused = absurd (omega arith)
  deal1_refused (suc n) params secrets publics rng e h refused = rw (refused, deal1) refl

  generate_with_dkg-Ensures :
      (params : MpcParams) (rng : C.Rng)
      → IsLawful C
      → IsAddressed D
      → 1 ≤ params.total
      → Ensures (Generated params) (generate_with_dkg D try_into params rng).0
  unfolding generate_with_dkg
  generate_with_dkg-Ensures params rng L A some_there = elim (Result-cases (try_into 1)) [
    | inr (e, refused) ↦ rw (deal1_refused params.total params [] [] rng e some_there refused) tt
    | inl (id, named) ↦
        >>=-Ensures (Dealt1 D try_into params 1 params.total ([], [])) _
          (deal1 D try_into params.total 1 params ([], []) rng).0 _
          (deal1-Ensures D try_into params.total 1 params [] [] rng
            (λ k. rw (contains-nil D.Secret1 k) (sym (contains-nil C.Round1Package k))) tt)
          (λ dealt d. conclude-Ensures params dealt L A some_there id named d)
  ]

  -- A key generation panics exactly where it is for no participant at all, whatever the protocol's
  -- functions return, if part 2 makes packages for the other participants only.
  pub generate_with_dkg-panics_iff :
      (params : MpcParams) (rng : C.Rng)
      → IsLawful C
      → IsAddressed D
      → ((generate_with_dkg D try_into params rng).0 ≡ panicked) ↔ (params.total ≡ 0)
  unfolding generate_with_dkg deal1 conclude deal2 deal3 preallocate
  generate_with_dkg-panics_iff params rng L A = (
    (λ h. elim (Bool-cases (eqb params.total 0)) [
      | inl zero_there ↦ eqb→eq params.total 0 zero_there
      | inr some_there ↦ absurd (
          subst (Ensures (Generated params)) h
            (generate_with_dkg-Ensures params rng L A (ground arith)))
    ]),
    (λ h. rw h refl),
  )

  -- Where part 2 makes packages for the other participants only, FROST has its laws, the total is not
  -- 0, and a key generation returns keys: there is a key package for exactly the identifiers of the
  -- numbers from 1 to the total. For each there is a run of the protocol: part 1 made the participant's
  -- secret and the package published under its name; part 2 ran on that secret and the packages of
  -- exactly the other participants; part 3 ran on what part 2 kept, on those packages, and on a box
  -- that holds, under each sender, the package that the sender's part 2 made for this participant, and
  -- nothing else; and it gave the key package, with a public key package whose verifying key is that of
  -- the one returned.
  pub generate_with_dkg-Generated :
      (params : MpcParams) (rng : C.Rng) (keys : GroupKeys D)
      → IsLawful C
      → IsAddressed D
      → 1 ≤ params.total
      → (generate_with_dkg D try_into params rng).0 ≡ returned keys
      → Generated params keys
  generate_with_dkg-Generated params rng keys L A some_there h =
      subst (Ensures (Generated params)) h (generate_with_dkg-Ensures params rng L A some_there)
