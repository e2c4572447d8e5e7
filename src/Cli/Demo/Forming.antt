-- ===== src/Cli/Demo/Forming.antt =====
-- The chain during the key generation of the demo: valid, with the parameters, and no request yet.
use project_sapphire.Base.{
  ◌≡◌, refl, sym, subst, some, List, [], ◌∷◌, Ord, ok, inl, inr, arith, Result-cases, if_elim,
}
use project_sapphire.Base.Map.{Map, insert}
use project_sapphire.Base.Map.Sorted.{IsSorted}
use project_sapphire.Core.{MpcParams}
use project_sapphire.Frost.{Ciphersuite, IsLawful}
use project_sapphire.Chain.Tx.{Tx, EncPublicKey, dkg_begin, dkg_round1, dkg_round2, dkg_finalize}
use project_sapphire.Chain.State.{State, initial, DkgCeremony, GroupConfig, finalize_complete}
use project_sapphire.Chain.Apply.{apply_tx, promote}
use project_sapphire.Chain.Effects.{
  dkg_begin-effect, dkg_round1-effect, dkg_round2-effect, dkg_finalize-effect,
}
use project_sapphire.Chain.Validity.{InRange, IsValid}
use project_sapphire.Chain.Validity.Preserved.{initial-IsValid, apply_tx-IsValid}
use project_sapphire.Chain.Sim.{ChainSim, new_sim, submit}
use project_sapphire.Chain.Sim.Laws.{settled, state-commit_block, mempool-commit_block}
use project_sapphire.Node.Gate.{All}
use project_sapphire.Keygen.Laws.{IsTimely}
use project_sapphire.Cli.Demo.{
  Halt, missing_panic, incomplete_panic, verification_failed, progressed, one_block,
}

module _ {I : Type 0} {C : Ciphersuite I} where
  -- What is not to happen: a participant that is no node yet, a `None` unwrapped, a signature that does
  -- not verify, a tampered release that progresses.
  abbrev pub IsExpected : Halt C → Type 0
  IsExpected missing_panic = ⊥
  IsExpected incomplete_panic = ⊥
  IsExpected verification_failed = ⊥
  IsExpected (progressed _) = ⊥
  IsExpected _ = Unit {0}

module _ {I : Type 0} ⦃o : Ord I⦄ {C : Ciphersuite I} where
  open C use {PublicKeyPackage}

  -- What participants emit.
  abbrev pub IsDkg : Tx C → Type 0
  IsDkg (dkg_round1 from pkg) = Unit {0}
  IsDkg (dkg_round2 from to sealed) = Unit {0}
  IsDkg (dkg_finalize from pkp) = Unit {0}
  IsDkg _ = ⊥

  pub record IsForming (params : MpcParams) (s : State C) : Type 0 where
    pub state-IsValid : IsValid s
    pub no_requests : s.requests ≡ []
    pub ceremony_params : (c : DkgCeremony C) → s.ceremony ≡ some c → c.params ≡ params
    pub group_params : (g : GroupConfig C) → s.group ≡ some g → g.params ≡ params

  promote-IsForming :
      (params : MpcParams) (s : State C) (c : DkgCeremony C) (m : Map I PublicKeyPackage)
      → IsForming params s
      → c.params ≡ params
      → IsValid (promote s c m)
      → IsForming params (promote s c m)
  unfolding promote
  promote-IsForming params s c [] f same v = f
  promote-IsForming params s c ((i, pkp) ∷ m) f same v = record {
    state-IsValid = v;
    no_requests = f.no_requests;
    ceremony_params = λ c h. cc;
    group_params = λ g h. ground (arith, same);
  }

  with_ceremony-IsForming :
      (params : MpcParams) (s : State C) (c : DkgCeremony C)
      → IsForming params s
      → c.params ≡ params
      → IsValid (record s { ceremony = some c })
      → IsForming params (record s { ceremony = some c })
  with_ceremony-IsForming params s c f same v = record {
    state-IsValid = v;
    no_requests = f.no_requests;
    ceremony_params = λ c' h. ground (arith, same);
    group_params = f.group_params;
  }

  pub step-IsForming :
      (params : MpcParams) (s t : State C) (tx : Tx C)
      → IsLawful C
      → IsForming params s
      → IsDkg tx
      → apply_tx s tx ≡ ok t
      → IsForming params t
  unfolding apply_tx
  step-IsForming params s t (dkg_round1 from pkg) L f dkg h =
      let (c, at_work, _, _, made) = dkg_round1-effect s t from pkg h in
      let v = apply_tx-IsValid L s t (dkg_round1 from pkg) f.state-IsValid tt h in
      subst (IsForming params) (sym made)
        (with_ceremony-IsForming params s _ f (f.ceremony_params c at_work) (subst IsValid made v))
  step-IsForming params s t (dkg_round2 from to sealed) L f dkg h =
      let (c, at_work, _, _, _, _, _, made) = dkg_round2-effect s t from to sealed h in
      let v = apply_tx-IsValid L s t (dkg_round2 from to sealed) f.state-IsValid tt h in
      subst (IsForming params) (sym made)
        (with_ceremony-IsForming params s _ f (f.ceremony_params c at_work) (subst IsValid made v))
  step-IsForming params s t (dkg_finalize from pkp) L f dkg h =
      let (c, at_work, _, _, _, _, made) = dkg_finalize-effect s t from pkp h in
      let v = apply_tx-IsValid L s t (dkg_finalize from pkp) f.state-IsValid tt h in
      let next : DkgCeremony C = record c { finalize = insert from pkp c.finalize } in
      let same = f.ceremony_params c at_work in
      subst (IsForming params) (sym made) (
        if_elim (λ u. IsValid u → IsForming params u) (finalize_complete next)
          (λ _ v. promote-IsForming params s next next.finalize f same v)
          (λ _ v. with_ceremony-IsForming params s next f same v) (subst IsValid made v))
  step-IsForming params s t _ L f dkg h = absurd dkg

  pub settled-IsForming :
      (params : MpcParams) (s : State C) (txs : List (Tx C))
      → IsLawful C
      → IsForming params s
      → All IsDkg txs
      → IsForming params (settled s txs)
  unfolding settled
  settled-IsForming params s [] L f all = f
  settled-IsForming params s (tx ∷ txs) L f (dkg, all) = elim (Result-cases (apply_tx s tx)) [
    | inl (t, e) ↦
        rw (e, settled)
          (settled-IsForming params t txs L (step-IsForming params s t tx L f dkg e) all)
    | inr (x, e) ↦ rw (e, settled) (settled-IsForming params s txs L f all)
  ]

  -- Between two blocks of the key generation.
  abbrev pub IsBetween : MpcParams → ChainSim C → Type 0
  IsBetween params chain = IsForming params chain.state × (chain.mempool ≡ [])

  begun-IsForming :
      (params : MpcParams) (keys : Map I EncPublicKey)
      → IsLawful C
      → InRange params
      → IsSorted keys
      → IsForming params (settled (initial C) (dkg_begin params keys ∷ []))
  unfolding settled apply_tx
  begun-IsForming params keys L range sorted =
      let fresh : IsForming params (initial C) = record {
        state-IsValid = initial-IsValid;
        no_requests = refl;
        ceremony_params = λ c h. cc;
        group_params = λ g h. cc;
      } in
      elim (Result-cases (apply_tx (initial C) (dkg_begin params keys))) [
        | inr (x, e) ↦ rw (e, settled) fresh
        | inl (t, e) ↦
            let (_, _, _, made) = dkg_begin-effect (initial C) t params keys e in
            let v =
              apply_tx-IsValid L (initial C) t (dkg_begin params keys) initial-IsValid
                (range, sorted) e in
            rw (e, settled)
              (subst (IsForming params) (sym made)
                (with_ceremony-IsForming params (initial C) _ fresh refl (subst IsValid made v)))
      ]

  pub one_block-IsBetween :
      (params : MpcParams) (keys : Map I EncPublicKey)
      → IsLawful C
      → InRange params
      → IsSorted keys
      → IsBetween params (one_block (new_sim C) (dkg_begin params keys))
  unfolding submit
  one_block-IsBetween params keys L range sorted =
      (rw state-commit_block (begun-IsForming params keys L range sorted), mempool-commit_block _)

  pub timely-AllDkg :
      (s : State C) (me : I) (txs : List (Tx C)) → All (IsTimely s me) txs → All IsDkg txs
  timely-AllDkg s me [] all = tt
  timely-AllDkg s me (dkg_round1 from pkg ∷ txs) (_, all) = (tt, timely-AllDkg s me txs all)
  timely-AllDkg s me (dkg_round2 from to sealed ∷ txs) (_, all) = (tt, timely-AllDkg s me txs all)
  timely-AllDkg s me (dkg_finalize from pkp ∷ txs) (_, all) = (tt, timely-AllDkg s me txs all)
  timely-AllDkg s me (_ ∷ txs) (h, all) = absurd h
