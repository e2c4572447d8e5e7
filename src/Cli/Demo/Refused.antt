-- ===== src/Cli/Demo/Refused.antt =====
-- The end of the demo: the tampered release is refused, and the whole command.
use project_sapphire.Base.{
  ◌≡◌, refl, sym, ap, subst, ◌∙◌, some, List, [], ◌∷◌, Ord, ok, err, inl, inr, true, false, EndsIn,
  >>=-EndsIn, map_err-EndsIn, map_err, ok_or, ◌>>=◌, arith, EndsIn-mono, EndsIn-widen, ◌≤◌, ◌⊎◌,
  ==_iff, String,
}
use project_sapphire.Base.Map.{Map, Set, get, contains_key, insert}
use project_sapphire.Base.Map.Laws.{get-insert_self}
use project_sapphire.Base.Map.Counting.{KeysWithin}
use project_sapphire.Base.Map.Within.{nil-KeysWithin}
use project_sapphire.Core.{Bytes, Uuid, uuid_ord}
use project_sapphire.Frost.{Ciphersuite, IsLawful}
use project_sapphire.Chain.Tx.{submit_request}
use project_sapphire.Chain.State.{State, RequestEntry, GroupConfig, awaiting_commitments, completed}
use project_sapphire.Chain.Progress.{rank, Reaches-Follows}
use project_sapphire.Chain.Sim.{ChainSim}
use project_sapphire.Escrow.{payee_mismatch, validate_settlement}
use project_sapphire.Node.Policy.{SignPolicy, approve, with_escrow, new_policy, escrow_policy}
use project_sapphire.Node.Signer.{Node}
use project_sapphire.Node.Memory.{IsConsistent}
use project_sapphire.Node.Gate.{All}
use project_sapphire.Zcash.Session.{react_validators}
use project_sapphire.Zcash.Refused.{IsRefused, IsWillingOrRefuses, round-IsRefused}
use project_sapphire.Cli.Demo.{
  Libraries, serializing, react_failed, missing_panic, new_uuid, proposal_to, demo_terms, one_block,
  Halt, progressed, react_block, judge_tampered, reject_tampered,
}
use project_sapphire.Cli.Demo.Forming.{IsExpected}
use project_sapphire.Cli.Demo.Ready.{
  IsKept, IsReady, IsFinished, opened_entry, one_block-IsReady, react_block-IsReady,
}

-- Where all keys lie within no keys, there are none.
no_keys :
    {K V : Type 0} ⦃o : Ord K⦄ (m : Map K V)
    → KeysWithin m (let none_of : Set K = [] in none_of)
    → m ≡ []
unfolding contains_key get
no_keys [] within = refl
no_keys ((i, c) ∷ m) within = absurd (ground (arith, within i, ==_iff i i))

module _ {I : Type 0} ⦃o : Ord I⦄ {C : Ciphersuite I} where
  open C use {Rng, Randomizer, SigningCommitments}

  -- The policy of the escrow.
  abbrev pub demo_policy : Libraries C → SignPolicy
  demo_policy L = escrow_policy L.formats (with_escrow new_policy (demo_terms L.sha256))

  -- What is written reads back.
  abbrev pub Decodes : Libraries C → Type 0
  Decodes L = (p : _) (m : Bytes) → L.to_vec p ≡ ok m → L.formats.from_slice m ≡ ok p

  tampered_refused :
      (L : Libraries C) (message : Bytes)
      → Decodes L
      → L.to_vec (proposal_to "u_attacker") ≡ ok message
      → (demo_policy L).approve message ≡ err (L.formats.to_string payee_mismatch)
  unfolding approve with_escrow validate_settlement get insert
  tampered_refused L message decodes encoded = rw (decodes _ _ encoded) refl

  -- What the demo can find of the second request: no commitment, or, where its id is that of the first
  -- request, what became of that one.
  abbrev IsSettled : Uuid → Set I → C.Signature → Uuid → State C → Type 0
  IsSettled first participants signature k s =
      (e : RequestEntry C) × (get k s.requests ≡ some e)
      × ((e.status ≡ awaiting_commitments [])
          ⊎ ((e.status ≡ completed participants signature) × (k ≡ first)))

  -- The demo reports the status of the first request, for its id has been drawn again.
  abbrev pub IsStale : Uuid → Set I → C.Signature → Uuid → Halt C → Type 0
  IsStale first participants signature k halt =
      (halt ≡ progressed (completed participants signature)) × (k ≡ first)

  abbrev pub IsExpectedOr : (Halt C → Type 0) → Halt C → Type 0
  IsExpectedOr Q halt = IsExpected halt ⊎ Q halt

  settled-IsExpectedOr :
      (first : Uuid) (participants : Set I) (signature : C.Signature) (k : Uuid) (s : State C)
      → IsSettled first participants signature k s
      → EndsIn
          (IsExpectedOr (IsStale first participants signature k))
          (λ _. Unit {0})
          (ok_or (get k s.requests) missing_panic >>= λ entry. judge_tampered entry.status)
  unfolding judge_tampered
  settled-IsExpectedOr first participants signature k s (e, there, inl waits) = rw (there, waits) tt
  settled-IsExpectedOr first participants signature k s (e, there, inr (done, again)) =
      rw (there, done) (inr (refl, again))

  kept-AllRefuse :
      (policy : SignPolicy) (message : Bytes) (reason : String) (nodes : List (Node C))
      → policy.approve message ≡ err reason
      → All (IsKept policy) nodes
      → All (IsWillingOrRefuses [] message) nodes
  kept-AllRefuse policy message reason [] refuses all = tt
  kept-AllRefuse policy message reason (node ∷ nodes) refuses ((consistent, same), all) = (
    (consistent, inr (reason, rw same refuses)),
    kept-AllRefuse policy message reason nodes refuses all,
  )

  kept-AllConsistent :
      (policy : SignPolicy) (nodes : List (Node C))
      → All (IsKept policy) nodes
      → All IsConsistent nodes
  kept-AllConsistent policy [] all = tt
  kept-AllConsistent policy (node ∷ nodes) ((consistent, _), all) =
      (consistent, kept-AllConsistent policy nodes all)

  -- The round on a new request that every node refuses.
  new-IsSettled :
      (policy : SignPolicy) (g : GroupConfig C) (first : Uuid) (participants : Set I)
      (signature : C.Signature) (k : Uuid) (message : Bytes) (reason : String)
      (randomizer : Randomizer) (nodes : List (Node C)) (chain : ChainSim C) (rng : Rng)
      → IsLawful C
      → IsReady policy g chain nodes
      → 1 ≤ g.params.threshold
      → policy.approve message ≡ err reason
      → get k chain.state.requests ≡ some (opened_entry k message randomizer)
      → EndsIn IsExpected
          (λ (_, chain', _). IsSettled first participants signature k chain'.state)
          (react_block nodes chain rng)
  unfolding react_block
  new-IsSettled policy g first participants signature k message reason randomizer nodes chain rng L
        r quorum refuses there =
      let (result, chain', nodes', rng') = react_validators nodes chain false rng in
      let before : IsRefused [] message k randomizer g chain nodes = record {
        underway = record {
          state-IsValid = r.state-IsValid;
          nothing_pending = r.nothing_pending;
          validators-AllConsistent = kept-AllConsistent policy nodes r.nodes-AllKept;
          entry = opened_entry k message randomizer;
          there = there;
          same_message = refl;
          same_randomizer = refl;
        };
        group_there = r.group_there;
        waits = (
          opened_entry k message randomizer,
          [],
          there,
          refl,
          nil-KeysWithin C.SigningCommitments [],
        );
        validators-AllWillingOrRefuse =
            kept-AllRefuse policy message reason nodes refuses r.nodes-AllKept;
      } in
      let after = round-IsRefused [] message k randomizer g chain nodes rng L tt quorum before in
      let (e, commitments, found, waits, within) = after.waits in
      let none_of : commitments ≡ [] = no_keys commitments within in
      >>=-EndsIn IsExpected (λ _. Unit {0}) _ (map_err react_failed result) _
        (map_err-EndsIn IsExpected react_failed (λ _. Unit {0}) result (λ e. tt) (λ a e. tt))
        (λ _ _. (e, found, inl (waits ∙ ap awaiting_commitments none_of)))

  -- The round where the id is that of the completed request.
  old-IsSettled :
      (policy : SignPolicy) (g : GroupConfig C) (first : Uuid) (participants : Set I)
      (signature : C.Signature) (k : Uuid) (nodes : List (Node C)) (chain : ChainSim C) (rng : Rng)
      → IsLawful C
      → IsReady policy g chain nodes
      → IsFinished first participants signature chain.state
      → contains_key k chain.state.requests ≡ true
      → EndsIn IsExpected
          (λ (_, chain', _). IsSettled first participants signature k chain'.state)
          (react_block nodes chain rng)
  old-IsSettled policy g first participants signature k nodes chain rng L r (e, only, there, done)
        held =
      let again : k ≡ first = only k held in
      let here : get k chain.state.requests ≡ some e = rw again there in
      EndsIn-mono IsExpected _ _ (react_block nodes chain rng)
        (react_block-IsReady policy g nodes chain rng L r)
        (λ (_, chain', _) (_, reaches, _).
          let (e', there', follows) = Reaches-Follows k e reaches here in
          (e', there', inr (follows.final (ap rank done) ∙ done, again)))

  -- It accepts the tampered release nowhere: it ends with success, or an error that is no report of
  -- it, or with the status of the first request.
  pub reject_tampered-IsExpectedOr :
      (L : Libraries C) (g : GroupConfig C) (randomizer : Randomizer) (first : Uuid)
      (participants : Set I) (signature : C.Signature) (nodes : List (Node C)) (chain : ChainSim C)
      (rng : Rng)
      → IsLawful C
      → Decodes L
      → IsReady (demo_policy L) g chain nodes
      → 1 ≤ g.params.threshold
      → IsFinished first participants signature chain.state
      → EndsIn
          (IsExpectedOr (IsStale first participants signature (new_uuid C rng).0))
          (λ _. Unit {0})
          (reject_tampered L randomizer nodes chain rng)
  unfolding reject_tampered
  reject_tampered-IsExpectedOr L g randomizer first participants signature nodes chain rng lawful
        decodes r quorum finished =
      let Q = IsExpectedOr (IsStale first participants signature (new_uuid C rng).0) in
      >>=-EndsIn Q (λ m. L.to_vec (proposal_to "u_attacker") ≡ ok m) _
        (map_err serializing (L.to_vec (proposal_to "u_attacker"))) _
        (map_err-EndsIn Q serializing _ (L.to_vec (proposal_to "u_attacker")) (λ e. inl tt)
          (λ m e. e))
        (λ m encoded.
          let (k, rng0) = new_uuid C rng in
          let chain0 = one_block chain (submit_request k m randomizer) in
          let (r0, _, opens) =
            one_block-IsReady (demo_policy L) g nodes chain k m randomizer lawful r in
          let Settled = IsSettled first participants signature k in
          >>=-EndsIn Q (λ (_, chain1, _). Settled chain1.state) _ (react_block nodes chain0 rng0) _
            (EndsIn-widen IsExpected Q (λ (_, chain1, _). Settled chain1.state)
              (react_block nodes chain0 rng0)
              (elim opens [
                | inl (fresh, made) ↦
                    new-IsSettled (demo_policy L) g first participants signature k m _ randomizer
                      nodes chain0 rng0 lawful r0 quorum (tampered_refused L m decodes encoded)
                      (rw made
                        (get-insert_self k (opened_entry k m randomizer) chain.state.requests))
                | inr (held, same) ↦
                    old-IsSettled (demo_policy L) g first participants signature k nodes chain0 rng0
                      lawful r0
                      (subst (IsFinished first participants signature) (sym same) finished)
                      (rw same held)
              ])
              (λ e h. inl h))
            (λ (_, chain1, _) settled.
              settled-IsExpectedOr first participants signature k chain1.state settled))
