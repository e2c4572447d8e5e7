-- ===== src/Keygen/Whole.antt =====
-- Round 3 of a key generation: no panic, and one key for all.
use project_sapphire.Base.{
  ◌≡◌, ◌≢◌, refl, sym, subst, ◌∙◌, inl, inr, true, ◌||◌, Option, none, some, [], ◌∷◌, Ord, ok,
  arith, ◌==◌, ==_iff, ==_refl, Result-cases, Bool-cases, if_elim,
}
use project_sapphire.Base.Map.{Map, get, contains_key, insert, remove}
use project_sapphire.Base.Map.Laws.{
  contains-insert, contains-get, contains_of_get, get-remove, get-insert,
}
use project_sapphire.Base.Map.Sorted.{IsSorted, Above, get_of_Above}
use project_sapphire.Frost.{Ciphersuite, IsLawful}
use project_sapphire.Keygen.Participant.{DkgScheme}
use project_sapphire.Keygen.Ceremony.{Inbox, others_r1, agree, deal3}
use project_sapphire.Keygen.Rounds.{
  Ensures, >>=-Ensures, Ensures-mono, Within, or_false, contains-nil, contains-cons,
}

get-cons_self :
    {I V : Type 0} ⦃o : Ord I⦄ (id : I) (v : V) (m : Map I V) → get id ((id, v) ∷ m) ≡ some v
unfolding get
get-cons_self id v m = rw (==_refl id) refl

-- The boxes of those who come later are not touched.
Within-remove :
    {I : Type 0} ⦃o : Ord I⦄ {V W : Type 0} (id : I) (v : V) (m : Map I V) (inbox : Map I W)
    → Above id m
    → Within ((id, v) ∷ m) inbox
    → Within m (remove id inbox)
unfolding contains_key get
Within-remove id v m inbox above w k h =
    ground (arith, get-remove k id inbox, w k, ==_iff k id, get_of_Above id m above)

module _ {I : Type 0} ⦃o : Ord I⦄ {C : Ciphersuite I} (D : DkgScheme C)
    (publics : Map I C.Round1Package) (all_secrets : Map I D.Secret2) (all_inbox : Inbox D) where
  open C use {KeyPackage, PublicKeyPackage, verifying_key}

  -- What round 3 computed for a participant from its own secret and its own inbox, with the key that
  -- all agree on.
  abbrev pub Computed : I → KeyPackage → Option PublicKeyPackage → Type 0
  Computed k key_pkg group =
      (secret : D.Secret2) × (received : Map I D.Round2Package) × (pkp : PublicKeyPackage)
      × (existing : PublicKeyPackage) × (get k all_secrets ≡ some secret)
      × (get k all_inbox ≡ some received)
      × (D.part3 secret (others_r1 D k publics) received ≡ ok (key_pkg, pkp))
      × (group ≡ some existing)
      × (verifying_key existing ≡ verifying_key pkp)

  abbrev pub Agreed : Option PublicKeyPackage → Map I KeyPackage → Type 0
  Agreed group keys =
      (k : I) (key_pkg : KeyPackage) → get k keys ≡ some key_pkg → Computed k key_pkg group

  abbrev Extends : Option PublicKeyPackage → PublicKeyPackage → Option PublicKeyPackage → Type 0
  Extends group pkp group' =
      (existing : PublicKeyPackage) × (group' ≡ some existing)
      × (verifying_key existing ≡ verifying_key pkp)
      × ((e : PublicKeyPackage) → group ≡ some e → e ≡ existing)

  agree-Ensures :
      (group : Option PublicKeyPackage) (pkp : PublicKeyPackage)
      → IsLawful C
      → Ensures (Extends group pkp) (agree D group pkp)
  unfolding agree
  agree-Ensures none pkp L = (pkp, refl, refl, λ e h. absurd (cc))
  agree-Ensures (some existing) pkp L =
      if_elim (Ensures (Extends (some existing) pkp))
        (C.verifying_key_eq (verifying_key existing) (verifying_key pkp))
        (λ e. (existing, refl, (L.verifying_key_eq_iff _ _).0 e, λ e' h. cc)) (λ e. tt)

  insert-Agreed :
      (id : I) (key_pkg : KeyPackage) (pkp : PublicKeyPackage) (secret : D.Secret2)
      (received : Map I D.Round2Package) (group group' : Option PublicKeyPackage)
      (keys : Map I KeyPackage)
      → get id all_secrets ≡ some secret
      → get id all_inbox ≡ some received
      → D.part3 secret (others_r1 D id publics) received ≡ ok (key_pkg, pkp)
      → Extends group pkp group'
      → Agreed group keys
      → Agreed group' (insert id key_pkg keys)
  insert-Agreed id key_pkg pkp secret received group group' keys own mail made
        (existing, now, same, kept) all k kp h =
      elim (Bool-cases (k == id)) [
        | inl e ↦
            let here : k ≡ id = (==_iff k id).0 e in
            let is : kp ≡ key_pkg = ground (arith, get-insert k id key_pkg keys) in
            (
              secret,
              received,
              pkp,
              existing,
              rw here own,
              rw here mail,
              rw here (rw is made),
              now,
              same,
            )
        | inr e ↦
            let old : get k keys ≡ some kp = ground (arith, get-insert k id key_pkg keys) in
            let (s, r, p, ex, own', mail', made', group_was, same') = all k kp old in
            (
              s,
              r,
              p,
              existing,
              own',
              mail',
              made',
              now,
              subst (λ x. verifying_key x ≡ verifying_key p) (kept ex group_was) same',
            )
      ]

  pub record Dealt3 (secrets : Map I D.Secret2) (before : Map I KeyPackage)
      (group : Option PublicKeyPackage) (dealt : Map I KeyPackage × Option PublicKeyPackage)
      : Type 0 where
    pub keys : (k : I) → contains_key k dealt.0 ≡ (contains_key k before || contains_key k secrets)
    pub agreed : Agreed dealt.1 dealt.0
    -- A group is there in the end where one was there, or a secret is.
    pub grouped : (group ≡ none → secrets ≢ []) → dealt.1 ≢ none

  -- What is left is as it was at the start.
  pub record Remains (secrets : Map I D.Secret2) (inbox : Inbox D) : Type 0 where
    pub own :
        (k : I) (secret : D.Secret2) → get k secrets ≡ some secret → get k all_secrets ≡ some secret
    pub mail : (k : I) → contains_key k secrets ≡ true → get k inbox ≡ get k all_inbox

  next-Remains :
      (id : I) (secret : D.Secret2) (secrets : Map I D.Secret2) (inbox : Inbox D)
      → Above id secrets
      → Remains ((id, secret) ∷ secrets) inbox
      → Remains secrets (remove id inbox)
  unfolding get contains_key
  next-Remains id secret secrets inbox above r = record {
    own = λ k s h. ground (arith, r.own k s, get_of_Above id secrets above, ==_iff k id);
    mail = λ k h.
        ground (arith, r.mail k, get-remove k id inbox, get_of_Above id secrets above, ==_iff k id);
  }

  pub deal3-Ensures :
      (secrets : Map I D.Secret2) (inbox : Inbox D) (before : Map I KeyPackage)
      (group : Option PublicKeyPackage)
      → IsLawful C
      → IsSorted secrets
      → Within secrets inbox
      → Remains secrets inbox
      → Agreed group before
      → Ensures (Dealt3 secrets before group) (deal3 D publics secrets inbox before group)
  unfolding deal3
  deal3-Ensures [] inbox before group L s w left all = record {
    keys = λ k. rw (contains-nil D.Secret2 k) (sym (or_false (contains_key k before)));
    agreed = all;
    grouped = λ some_there none_there. some_there none_there refl;
  }
  deal3-Ensures ((id, secret) ∷ secrets) inbox before group L (above, s) w left all =
      let here : contains_key id inbox ≡ true =
        w id (contains-cons id id secret secrets ∙ rw (==_refl id) refl) in
      let (received, found) = contains-get id inbox here in
      let own : get id all_secrets ≡ some secret =
        left.own id secret (get-cons_self id secret secrets) in
      let mail : get id all_inbox ≡ some received =
        sym (left.mail id (contains_of_get id _ secret (get-cons_self id secret secrets)))
        ∙ found in
      let later : Within secrets (remove id inbox) =
        Within-remove id secret secrets inbox above w in
      elim (Result-cases (D.part3 secret (others_r1 D id publics) received)) [
        | inr (e, refused) ↦ rw found (rw refused tt)
        | inl ((key_pkg, pkp), made) ↦ rw found (
            rw made (
              >>=-Ensures (Extends group pkp) _ (agree D group pkp) _ (agree-Ensures group pkp L)
                (λ group' ext.
                  let before' = insert id key_pkg before in
                  Ensures-mono (Dealt3 secrets before' group') _ _
                    (deal3-Ensures secrets (remove id inbox) before' group' L s later
                      (next-Remains id secret secrets inbox above left)
                      (insert-Agreed id key_pkg pkp secret received group group' before own mail
                        made ext all))
                    (λ dealt d. record {
                      keys = λ k. ground (
                        arith,
                        d.keys k,
                        contains-insert k id key_pkg before,
                        contains-cons k id secret secrets,
                      );
                      agreed = d.agreed;
                      grouped = λ some_there. d.grouped (λ n. absurd (cc (ext.1)));
                    }))))
      ]
