-- ===== src/Cli/Demo/Complete.antt =====
-- What the turn of a participant does to what each of them owes.
use project_sapphire.Base.{◌≡◌, ◌≢◌, sym, subst, ◌∙◌, List, [], ◌∷◌, ◌++◌, Ord, ok}
use project_sapphire.Frost.{Ciphersuite}
use project_sapphire.Chain.Tx.{
  Tx, init_group, dkg_begin, submit_request, submit_commitment, submit_share, dkg_round1,
  dkg_round2, dkg_finalize,
}
use project_sapphire.Chain.State.{State}
use project_sapphire.Node.Once.{sent}
use project_sapphire.Node.Gate.{All, All-append}
use project_sapphire.Keygen.Envelope.{CryptoBox}
use project_sapphire.Keygen.Participant.{DkgScheme, DkgParticipant, participate}
use project_sapphire.Keygen.Laws.{IsTimely, IsBacked, participate-IsFit}
use project_sapphire.Cli.Demo.Steady.{IsComplete, IsSteady, participate-IsSteady}
use project_sapphire.Cli.Demo.Owed.{Gives, Owns}

module _ {I : Type 0} ⦃o : Ord I⦄ {C : Ciphersuite I} (B : CryptoBox C.Rng) (D : DkgScheme C) where
  open C use {Rng}

  -- Other transactions at the end of the queue.
  append-Owns :
      (q : DkgParticipant B D) (s : State C) (txs more : List (Tx C))
      → Owns B D q s txs
      → All (Gives B D q) more
      → Owns B D q s (txs ++ more)
  append-Owns q s txs more w all = record {
    queued = All-append (Gives B D q) txs more w.queued all;
    registered = w.registered;
    posted = w.posted;
    promoted = w.promoted;
  }

  -- What a participant emits is nothing to one with another identifier.
  others-Give :
      (q : DkgParticipant B D) (s : State C) (me : I) (txs : List (Tx C))
      → me ≢ q.identifier
      → All (IsTimely s me) txs
      → All (Gives B D q) txs
  others-Give q s me [] apart all = tt
  others-Give q s me (dkg_round1 from pkg ∷ txs) apart (_, all) =
      (tt, others-Give q s me txs apart all)
  others-Give q s me (dkg_round2 from to sealed ∷ txs) apart (_, all) =
      (tt, others-Give q s me txs apart all)
  others-Give q s me (dkg_finalize from pkp ∷ txs) apart ((own, _), all) =
      ((λ same. absurd (apart (sym own ∙ same))), others-Give q s me txs apart all)
  others-Give q s me (_ ∷ txs) apart (h, all) = absurd h

  -- What it emits itself it backs.
  backed-Give :
      (q : DkgParticipant B D) (s : State C) (me : I) (txs : List (Tx C))
      → All (IsTimely s me) txs
      → All (IsBacked B D q) txs
      → All (Gives B D q) txs
  backed-Give q s me [] all backs = tt
  backed-Give q s me (dkg_round1 from pkg ∷ txs) (_, all) (_, backs) =
      (tt, backed-Give q s me txs all backs)
  backed-Give q s me (dkg_round2 from to sealed ∷ txs) (_, all) (_, backs) =
      (tt, backed-Give q s me txs all backs)
  backed-Give q s me (dkg_finalize from pkp ∷ txs) (_, all) ((k, node), backs) =
      ((λ same. (_, node)), backed-Give q s me txs all backs)
  backed-Give q s me (_ ∷ txs) (h, all) backs = absurd h

  grown-Gives :
      (p q : DkgParticipant B D) (txs : List (Tx C))
      → q.identifier ≡ p.identifier
      → (IsComplete B D p → IsComplete B D q)
      → All (Gives B D p) txs
      → All (Gives B D q) txs
  grown-Gives p q [] same grows all = tt
  grown-Gives p q (dkg_finalize from pkp ∷ txs) same grows (gives, all) =
      ((λ own. grows (gives (own ∙ same))), grown-Gives p q txs same grows all)
  grown-Gives p q (dkg_round1 _ _ ∷ txs) same grows (_, all) =
      (tt, grown-Gives p q txs same grows all)
  grown-Gives p q (dkg_round2 _ _ _ ∷ txs) same grows (_, all) =
      (tt, grown-Gives p q txs same grows all)
  grown-Gives p q (init_group _ _ _ ∷ txs) same grows (_, all) =
      (tt, grown-Gives p q txs same grows all)
  grown-Gives p q (dkg_begin _ _ ∷ txs) same grows (_, all) =
      (tt, grown-Gives p q txs same grows all)
  grown-Gives p q (submit_request _ _ _ ∷ txs) same grows (_, all) =
      (tt, grown-Gives p q txs same grows all)
  grown-Gives p q (submit_commitment _ _ _ ∷ txs) same grows (_, all) =
      (tt, grown-Gives p q txs same grows all)
  grown-Gives p q (submit_share _ _ _ ∷ txs) same grows (_, all) =
      (tt, grown-Gives p q txs same grows all)

  grown-Owns :
      (p q : DkgParticipant B D) (s : State C) (txs : List (Tx C))
      → q.identifier ≡ p.identifier
      → (IsComplete B D p → IsComplete B D q)
      → Owns B D p s txs
      → Owns B D q s txs
  grown-Owns p q s txs same grows w = record {
    queued = grown-Gives p q txs same grows w.queued;
    registered = λ c at_work. rw same (w.registered c at_work);
    posted = λ c at_work held. grows (w.posted c at_work (rw (← same) held));
    promoted = λ g found. grows (w.promoted g found);
  }

  -- The queue and the participant after a turn that returns.
  pub turn-Owns :
      (p : DkgParticipant B D) (s : State C) (rng : Rng) (os : B.OsRng) (queue txs : List (Tx C))
      → (let (result, p', _, _) = participate B D p s rng os in
          result ≡ ok txs
          → Owns B D p s queue
          → (p'.identifier ≡ p.identifier)
            × Owns B D p' s (queue ++ txs)
            × ((q : DkgParticipant B D)
                → p.identifier ≢ q.identifier
                → Owns B D q s queue
                → Owns B D q s (queue ++ txs)))
  turn-Owns p s rng os queue txs e w =
      let (result, p', rng', os') = participate B D p s rng os in
      let (timely, backed) = participate-IsFit B D p s rng os in
      let timely' : All (IsTimely s p.identifier) txs =
        subst (λ r. All (IsTimely s p.identifier) (sent r)) e timely in
      let backed' : All (IsBacked B D p') txs =
        subst (λ r. All (IsBacked B D p') (sent r)) e backed in
      let (same, grows) =
        subst (λ r. IsSteady B D p (r, p', rng', os')) e (participate-IsSteady B D p s rng os) in
      (
        same,
        append-Owns p' s queue txs (grown-Owns p p' s queue same grows w)
            (backed-Give p' s p.identifier txs timely' backed'),
        (λ q apart w'.
            append-Owns q s queue txs w' (others-Give q s p.identifier txs apart timely')),
      )
