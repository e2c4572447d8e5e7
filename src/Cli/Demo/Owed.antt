-- ===== src/Cli/Demo/Owed.antt =====
-- What a participant owes to the chain: where its final package is there, it is complete. The chain's
-- blocks keep this, and at the promotion it is so for all.
use project_sapphire.Base.{
  ◌≡◌, sym, subst, ◌∙◌, true, some, List, [], ◌∷◌, Ord, ok, inl, inr, if_elim, Bool-cases,
  Result-cases, ◌==◌, ==_iff, arith, eqb→eq,
}
use project_sapphire.Base.Map.{Map, contains_key, insert}
use project_sapphire.Base.Map.Laws.{contains-insert}
use project_sapphire.Base.Map.Sorted.{insert-IsSorted}
use project_sapphire.Base.Map.Within.{insert-KeysWithin}
use project_sapphire.Base.Map.Counting.{KeysWithin-of_length}
use project_sapphire.Core.{MpcParams}
use project_sapphire.Frost.{Ciphersuite, IsLawful}
use project_sapphire.Chain.Tx.{Tx, dkg_round1, dkg_round2, dkg_finalize}
use project_sapphire.Chain.State.{State, DkgCeremony, GroupConfig, finalize_complete}
use project_sapphire.Chain.Apply.{apply_tx, promote}
use project_sapphire.Chain.Effects.{dkg_round1-effect, dkg_round2-effect, dkg_finalize-effect}
use project_sapphire.Chain.Validity.{IsValid, IsCeremony}
use project_sapphire.Chain.Sim.Laws.{settled}
use project_sapphire.Node.Gate.{All}
use project_sapphire.Keygen.Envelope.{CryptoBox}
use project_sapphire.Keygen.Participant.{DkgScheme, DkgParticipant}
use project_sapphire.Cli.Demo.Forming.{IsDkg, IsForming, step-IsForming}
use project_sapphire.Cli.Demo.Steady.{IsComplete}

module _ {I : Type 0} ⦃o : Ord I⦄ {C : Ciphersuite I} (B : CryptoBox C.Rng) (D : DkgScheme C) where
  -- A final package in this participant's name is backed by it.
  abbrev pub Gives : DkgParticipant B D → Tx C → Type 0
  Gives q (dkg_finalize from pkp) = from ≡ q.identifier → IsComplete B D q
  Gives q _ = Unit {0}

  -- In this state, with these transactions to come, the participant is complete if it has to be.
  pub record Owns (q : DkgParticipant B D) (s : State C) (txs : List (Tx C)) : Type 0 where
    pub queued : All (Gives q) txs
    pub registered :
        (c : DkgCeremony C) → s.ceremony ≡ some c → contains_key q.identifier c.validators ≡ true
    pub posted :
        (c : DkgCeremony C)
        → s.ceremony ≡ some c
        → contains_key q.identifier c.finalize ≡ true
        → IsComplete B D q
    pub promoted : (g : GroupConfig C) → s.group ≡ some g → IsComplete B D q

  -- The ceremony after a final package.
  finalized-Owns :
      (q : DkgParticipant B D) (s : State C) (c : DkgCeremony C) (from : I)
      (pkp : C.PublicKeyPackage) (txs : List (Tx C))
      → Owns q s (dkg_finalize from pkp ∷ txs)
      → s.ceremony ≡ some c
      → contains_key q.identifier (insert from pkp c.finalize) ≡ true
      → IsComplete B D q
  finalized-Owns q s c from pkp txs w at_work held = elim (Bool-cases (q.identifier == from)) [
    | inl own ↦ w.queued.0 (sym ((==_iff q.identifier from).0 own))
    | inr other ↦
        w.posted c at_work (ground (arith, contains-insert q.identifier from pkp c.finalize))
  ]

  -- A ceremony that is complete has a final package of everyone.
  all_finalized :
      (c : DkgCeremony C) (from : I) (pkp : C.PublicKeyPackage) (q : I)
      → IsCeremony c
      → contains_key from c.validators ≡ true
      → finalize_complete (record c { finalize = insert from pkp c.finalize }) ≡ true
      → contains_key q c.validators ≡ true
      → contains_key q (insert from pkp c.finalize) ≡ true
  unfolding finalize_complete
  all_finalized c from pkp q v known full there =
      KeysWithin-of_length (insert from pkp c.finalize) c.validators
        (insert-IsSorted from pkp c.finalize v.finalize-IsSorted) v.validators-IsSorted
        (insert-KeysWithin from pkp c.finalize c.validators known v.finalize_within)
        (eqb→eq _ _ full ∙ sym v.count) q there

  -- One transaction less to come.
  later-Owns :
      (q : DkgParticipant B D) (s : State C) (tx : Tx C) (txs : List (Tx C))
      → Owns q s (tx ∷ txs)
      → Owns q s txs
  later-Owns q s tx txs w = record {
    queued = w.queued.1;
    registered = w.registered;
    posted = w.posted;
    promoted = w.promoted;
  }

  promote-Owns :
      (q : DkgParticipant B D) (s : State C) (c : DkgCeremony C) (m : Map I C.PublicKeyPackage)
      (tx : Tx C) (txs : List (Tx C))
      → Owns q s (tx ∷ txs)
      → IsComplete B D q
      → Owns q (promote s c m) txs
  unfolding promote
  promote-Owns q s c [] tx txs w complete = later-Owns q s tx txs w
  promote-Owns q s c ((i, pkp) ∷ m) tx txs w complete = record {
    queued = w.queued.1;
    registered = λ c' e. cc;
    posted = λ c' e held. cc;
    promoted = λ g e. complete;
  }

  step-Owns :
      (q : DkgParticipant B D) (s t : State C) (tx : Tx C) (txs : List (Tx C))
      → IsValid s
      → IsDkg tx
      → Owns q s (tx ∷ txs)
      → apply_tx s tx ≡ ok t
      → Owns q t txs
  unfolding apply_tx
  step-Owns q s t (dkg_round1 from pkg) txs v dkg w h =
      let (c, at_work, _, _, made) = dkg_round1-effect s t from pkg h in
      subst (λ u. Owns q u txs) (sym made)
        (record {
          queued = w.queued.1;
          registered = λ c' e. ground (arith, w.registered c at_work);
          posted = λ c' e held. w.posted c at_work (ground arith);
          promoted = w.promoted;
        })
  step-Owns q s t (dkg_round2 from to sealed) txs v dkg w h =
      let (c, at_work, _, _, _, _, _, made) = dkg_round2-effect s t from to sealed h in
      subst (λ u. Owns q u txs) (sym made)
        (record {
          queued = w.queued.1;
          registered = λ c' e. ground (arith, w.registered c at_work);
          posted = λ c' e held. w.posted c at_work (ground arith);
          promoted = w.promoted;
        })
  step-Owns q s t (dkg_finalize from pkp) txs v dkg w h =
      let (c, at_work, _, known, _, _, made) = dkg_finalize-effect s t from pkp h in
      let next : DkgCeremony C = record c { finalize = insert from pkp c.finalize } in
      let held_all =
        all_finalized c from pkp q.identifier (v.ceremony-IsCeremony c at_work) known in
      let whole = finalized-Owns q s c from pkp txs w at_work in
      subst (λ u. Owns q u txs) (sym made)
        (if_elim (λ u. Owns q u txs) (finalize_complete next)
          (λ full.
            promote-Owns q s next next.finalize _ txs w
              (whole (held_all full (w.registered c at_work))))
          (λ partial. record {
            queued = w.queued.1;
            registered = λ c' e. ground (arith, w.registered c at_work);
            posted = λ c' e held. whole (ground arith);
            promoted = w.promoted;
          }))
  step-Owns q s t _ txs v dkg w h = absurd dkg

  pub settled-Owns :
      (params : MpcParams) (q : DkgParticipant B D) (s : State C) (txs : List (Tx C))
      → IsLawful C
      → IsForming params s
      → All IsDkg txs
      → Owns q s txs
      → Owns q (settled s txs) []
  unfolding settled
  settled-Owns params q s [] L f all w = w
  settled-Owns params q s (tx ∷ txs) L f (dkg, all) w = elim (Result-cases (apply_tx s tx)) [
    | inl (t, e) ↦
        rw (e, settled)
          (settled-Owns params q t txs L (step-IsForming params s t tx L f dkg e) all
            (step-Owns q s t tx txs f.state-IsValid dkg w e))
    | inr (x, e) ↦ rw (e, settled) (settled-Owns params q s txs L f all (later-Owns q s tx txs w))
  ]
