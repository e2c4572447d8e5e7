-- ===== src/Keygen/Rounds.antt =====
-- The rounds of a key generation: which keys their maps have, and that no `expect` fails.
use project_sapphire.Base.{
  ◌≡◌, refl, sym, ◌∙◌, inl, inr, Bool, true, false, ◌||◌, [], ◌∷◌, Ord, ok, arith, ◌==◌, ==_iff,
  ==_refl, Result-cases, Bool-cases, ◌⊎◌, some, if◌then◌else◌,
}
use project_sapphire.Base.Map.{Map, get, contains_key, insert}
use project_sapphire.Base.Map.Laws.{contains-insert, contains-get, get-insert}
use project_sapphire.Base.Map.Sorted.{IsSorted, Above, get_of_Above, insert-IsSorted}
use project_sapphire.Frost.{Ciphersuite}
use project_sapphire.Keygen.Participant.{DkgScheme}
use project_sapphire.Keygen.Ceremony.{
  Attempt, returned, failed, panicked, ◌>>=◌, Inbox, others_r1, preallocate, distribute, deal2,
}
use project_sapphire.Keygen.Posted.{
  or_else, latest, inbox_at, posted, inbox_at-handed, posted-cons, posted-Above, nothing-posted,
}

or_true : (b : Bool) → (b || true) ≡ true
or_true true = refl
or_true false = refl

pub or_false : (b : Bool) → (b || false) ≡ b
or_false true = refl
or_false false = refl

-- No panic, and this of what is returned.
abbrev pub Ensures : {A : Type 0} → (A → Type 0) → Attempt A → Type 0
Ensures P (returned a) = P a
Ensures P (failed e) = Unit {0}
Ensures P panicked = ⊥

pub >>=-Ensures :
    {A B : Type 0} (P : A → Type 0) (Q : B → Type 0) (m : Attempt A) (next : A → Attempt B)
    → Ensures P m
    → ((a : A) → P a → Ensures Q (next a))
    → Ensures Q (m >>= next)
>>=-Ensures P Q (returned a) next h step = step a h
>>=-Ensures P Q (failed e) next h step = tt
>>=-Ensures P Q panicked next h step = absurd h

pub Ensures-mono :
    {A : Type 0} (P Q : A → Type 0) (m : Attempt A)
    → Ensures P m
    → ((a : A) → P a → Q a)
    → Ensures Q m
Ensures-mono P Q (returned a) h f = f a h
Ensures-mono P Q (failed e) h f = tt
Ensures-mono P Q panicked h f = absurd h

module _ {I : Type 0} ⦃o : Ord I⦄ where
  pub contains-nil : (V : Type 0) (k : I) → contains_key {V = V} k [] ≡ false
  unfolding contains_key get
  contains-nil V k = refl

  -- Writing to a key that is there leaves the keys.
  pub contains-insert_there :
      {V : Type 0} (k j : I) (v : V) (m : Map I V)
      → contains_key j m ≡ true
      → contains_key k (insert j v m) ≡ contains_key k m
  contains-insert_there k j v m h = ground (arith, contains-insert k j v m, ==_iff k j)

  -- Each key of the one map is one of the other.
  abbrev pub Within : {V W : Type 0} → Map I V → Map I W → Type 0
  Within a b = (k : I) → contains_key k a ≡ true → contains_key k b ≡ true

  pub contains-cons :
      {V : Type 0} (k j : I) (v : V) (m : Map I V)
      → contains_key k ((j, v) ∷ m) ≡ (k == j || contains_key k m)
  unfolding contains_key get
  contains-cons k j v m = ground arith

module _ {I : Type 0} ⦃o : Ord I⦄ {C : Ciphersuite I} (D : DkgScheme C) where
  -- `part2` makes a package for each of the others, and for nobody else.
  pub record IsAddressed : Type 0 where
    pub part2-recipients :
        (secret : D.Secret1) (others : Map I C.Round1Package) (secret2 : D.Secret2)
        (sent : Map I D.Round2Package)
        → D.part2 secret others ≡ ok (secret2, sent)
        → Within sent others

  others-Within : (id : I) (m : Map I C.Round1Package) → Within (others_r1 D id m) m
  unfolding others_r1 contains_key get
  others-Within id [] k h = h
  others-Within id ((j, pkg) ∷ m) k h = ground (arith, others-Within id m k)

  pub contains-preallocate :
      (m : Map I C.Round1Package) (inbox : Inbox D) (k : I)
      → contains_key k (preallocate D m inbox) ≡ (contains_key k m || contains_key k inbox)
  unfolding preallocate
  contains-preallocate [] inbox k = rw (contains-nil C.Round1Package k) refl
  contains-preallocate ((j, pkg) ∷ m) inbox k = ground (
    arith,
    contains-preallocate m (insert j [] inbox) k,
    contains-insert k j [] inbox,
    contains-cons k j pkg m,
  )

  -- No inbox more or less, and the packages of `id` in their recipients' inboxes.
  record Delivered (id : I) (sent : Map I D.Round2Package) (inbox inbox' : Inbox D) : Type 0 where
    boxes : (k : I) → contains_key k inbox' ≡ contains_key k inbox
    mail :
        (k s : I)
        → inbox_at D inbox' k s ≡ (
            if s == id
            then or_else (latest k sent) (inbox_at D inbox k s)
            else inbox_at D inbox k s)

  distribute-Ensures :
      (id : I) (sent : Map I D.Round2Package) (inbox : Inbox D)
      → Within sent inbox
      → Ensures (Delivered id sent inbox) (distribute D id sent inbox)
  unfolding distribute latest
  distribute-Ensures id [] inbox h = record { boxes = λ k. refl; mail = λ k s. ground arith }
  distribute-Ensures id ((r, pkg) ∷ sent) inbox h =
      let there : contains_key r inbox ≡ true =
        h r (contains-cons r r pkg sent ∙ rw (==_refl r) refl) in
      let (box, found) = contains-get r inbox there in
      let next : Inbox D = insert r (insert id pkg box) inbox in
      let same : (k : I) → contains_key k next ≡ contains_key k inbox =
        λ k. contains-insert_there k r (insert id pkg box) inbox there in
      let more : Within sent next =
        λ k m. same k ∙ h k (contains-cons k r pkg sent ∙ rw m (or_true (k == r))) in
      rw found (
        Ensures-mono _ _ (distribute D id sent next) (distribute-Ensures id sent next more)
          (λ inbox' d. record {
            boxes = λ k. d.boxes k ∙ same k;
            mail =
                λ k s. ground (arith, d.mail k s, inbox_at-handed D k s r id pkg box inbox found);
          }))

  -- Part 2 made this secret of round 1's for the participant.
  abbrev pub IsSecond : Map I C.Round1Package → Map I D.Secret1 → I → D.Secret2 → Type 0
  IsSecond publics secrets k secret2 =
      (secret : D.Secret1) × (sent : Map I D.Round2Package) × (get k secrets ≡ some secret)
      × (D.part2 secret (others_r1 D k publics) ≡ ok (secret2, sent))

  IsSecond-cons :
      (publics : Map I C.Round1Package) (id : I) (secret : D.Secret1) (secrets : Map I D.Secret1)
      (k : I) (secret2 : D.Secret2)
      → Above id secrets
      → IsSecond publics secrets k secret2
      → IsSecond publics ((id, secret) ∷ secrets) k secret2
  unfolding get
  IsSecond-cons publics id secret secrets k secret2 above (s, sent, there, made) =
      (s, sent, ground (arith, get_of_Above id secrets above, ==_iff k id), made)

  -- Round 2 meets no panic and no recipient without an inbox; each secret of round 1 gives one.
  pub record Dealt2 (publics : Map I C.Round1Package) (secrets : Map I D.Secret1)
      (before : Map I D.Secret2) (inbox : Inbox D) (dealt : Map I D.Secret2 × Inbox D)
      : Type 0 where
    pub keys : (k : I) → contains_key k dealt.0 ≡ (contains_key k before || contains_key k secrets)
    pub boxes : (k : I) → contains_key k dealt.1 ≡ contains_key k inbox
    pub sorted : IsSorted dealt.0
    pub second :
        (k : I) (secret2 : D.Secret2)
        → get k dealt.0 ≡ some secret2
        → (get k before ≡ some secret2) ⊎ IsSecond publics secrets k secret2
    pub mail :
        (k s : I)
        → inbox_at D dealt.1 k s ≡ or_else (posted D publics secrets k s) (inbox_at D inbox k s)

  insert-IsSecond :
      (publics : Map I C.Round1Package) (id : I) (secret : D.Secret1) (secrets : Map I D.Secret1)
      (before : Map I D.Secret2) (secret2 : D.Secret2) (sent : Map I D.Round2Package) (k : I)
      (made2 : D.Secret2)
      → Above id secrets
      → D.part2 secret (others_r1 D id publics) ≡ ok (secret2, sent)
      → (get k (insert id secret2 before) ≡ some made2) ⊎ IsSecond publics secrets k made2
      → (get k before ≡ some made2) ⊎ IsSecond publics ((id, secret) ∷ secrets) k made2
  unfolding get
  insert-IsSecond publics id secret secrets before secret2 sent k made2 above made (inr later) =
      inr (IsSecond-cons publics id secret secrets k made2 above later)
  insert-IsSecond publics id secret secrets before secret2 sent k made2 above made (inl now) =
      elim (Bool-cases (k == id)) [
        | inl e ↦
            let here : k ≡ id = (==_iff k id).0 e in
            let is : secret2 ≡ made2 = ground (arith, get-insert k id secret2 before) in
            inr (secret, sent, ground arith, rw (here, ← is) made)
        | inr e ↦ inl (ground (arith, get-insert k id secret2 before))
      ]

  pub deal2-Ensures :
      (publics : Map I C.Round1Package) (secrets : Map I D.Secret1) (before : Map I D.Secret2)
      (inbox : Inbox D)
      → IsAddressed
      → Within publics inbox
      → IsSorted secrets
      → IsSorted before
      → Ensures (Dealt2 publics secrets before inbox) (deal2 D publics secrets before inbox)
  unfolding deal2
  deal2-Ensures publics [] before inbox A w s1 s = record {
    keys = λ k. rw (contains-nil D.Secret1 k) (sym (or_false (contains_key k before)));
    boxes = λ k. refl;
    sorted = s;
    second = λ k secret2 h. inl h;
    mail = λ k s. nothing-posted D publics k s (inbox_at D inbox k s);
  }
  deal2-Ensures publics ((id, secret) ∷ secrets) before inbox A w (above, s1) s =
      elim (Result-cases (D.part2 secret (others_r1 D id publics))) [
        | inr (e, refused) ↦ rw refused tt
        | inl ((secret2, sent), made) ↦
            let addressed : Within sent inbox = λ k m.
              w k
                (others-Within id publics k (A.part2-recipients secret _ secret2 sent made k m)) in
            rw made (
              >>=-Ensures (Delivered id sent inbox) _ (distribute D id sent inbox) _
                (distribute-Ensures id sent inbox addressed)
                (λ inbox' post.
                  let before' = insert id secret2 before in
                  Ensures-mono (Dealt2 publics secrets before' inbox') _ _
                    (deal2-Ensures publics secrets before' inbox' A (λ k m. post.boxes k ∙ w k m) s1
                      (insert-IsSorted id secret2 before s))
                    (λ dealt d. record {
                      keys = λ k. ground (
                        arith,
                        d.keys k,
                        contains-insert k id secret2 before,
                        contains-cons k id secret secrets,
                      );
                      boxes = λ k. d.boxes k ∙ post.boxes k;
                      sorted = d.sorted;
                      second = λ k made2 h.
                          insert-IsSecond publics id secret secrets before secret2 sent k made2
                            above made (d.second k made2 h);
                      mail = λ k s. ground (
                        arith,
                        d.mail k s,
                        post.mail k s,
                        posted-cons D publics id secret secrets secret2 sent k s made,
                        posted-Above D publics id secrets k above,
                        ==_iff s id,
                      );
                    })))
      ]
