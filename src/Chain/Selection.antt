-- ===== src/Chain/Selection.antt =====
-- Which validators get to sign: the selection at the threshold.
use project_sapphire.Base.{
  ℕ, suc, ◌+◌, ◌%◌, ◌<◌, ◌≡◌, true, false, some, [], ◌⊎◌, inl, inr, Ord, ok, err, arith, ◌==◌,
  ==_refl, length, take_all, leb, if◌then◌else◌, Bool-cases, ◌∙◌, ◌≢◌,
}
use project_sapphire.Base.Map.{Map, get, contains_key, insert, key_set}
use project_sapphire.Base.Map.Laws.{contains-insert, contains-key_set, get-insert_self}
use project_sapphire.Base.Map.Sorted.{length-insert}
use project_sapphire.Core.{Bytes, Uuid, uuid_ord, u16_mod}
use project_sapphire.Frost.{Ciphersuite}
use project_sapphire.Chain.Tx.{submit_commitment}
use project_sapphire.Chain.State.{
  awaiting_commitments, signing, RequestEntry, GroupConfig, State, not_awaiting_commitments,
}
use project_sapphire.Chain.Apply.{advance, record_commitment, apply_submit_commitment, apply_tx}
use project_sapphire.Chain.Validity.{IsStatus, IsGroup}

count_lem : (n m t : ℕ) → t < u16_mod → m ≡ suc n → ((n ≡ 0) ⊎ (n < t)) → m % u16_mod ≡ n + 1
count_lem n m t h e k = omega arith

module _ {I V : Type 0} ⦃o : Ord I⦄ where
  selections_differ :
      (commitments : Map I V) (a b : I) (ca cb : V)
      → contains_key a commitments ≡ false
      → (a == b) ≡ false
      → key_set (insert a ca commitments) ≢ key_set (insert b cb commitments)
  selections_differ commitments a b ca cb fa differ same = ground (
    arith,
    contains-key_set a (insert a ca commitments),
    contains-key_set a (insert b cb commitments),
    contains-insert a a ca commitments,
    contains-insert a b cb commitments,
    ==_refl a,
  )

module _ {I : Type 0} ⦃o : Ord I⦄ {C : Ciphersuite I} where
  open C use {Randomizer, SigningCommitments, signing_package}

  -- The commitment that makes the threshold closes the round with all commitments there are, in
  -- the package and in the participants: `take` drops none. One that falls short of it only waits.
  pub advance-selects_all :
      (g : GroupConfig C) (message : Bytes) (randomizer : Randomizer) (validator : I)
      (c : SigningCommitments) (commitments : Map I SigningCommitments)
      → IsGroup g
      → 0 < g.params.threshold
      → IsStatus g message randomizer (awaiting_commitments commitments)
      → contains_key validator commitments ≡ false
      → let next = insert validator c commitments in
        advance g message next ≡ (
          if leb g.params.threshold (length commitments + 1)
          then signing (signing_package next message) (key_set next) []
          else awaiting_commitments next)
  unfolding advance
  advance-selects_all g message randomizer validator c commitments group positive status fresh =
      let next = insert validator c commitments in
      let long : length next ≡ suc (length commitments) =
        length-insert validator c commitments fresh in
      let fits : length next % u16_mod ≡ length commitments + 1 =
        count_lem (length commitments) (length next) g.params.threshold group.range.0 long
          (ground arith) in
      rw fits (elim (Bool-cases (leb g.params.threshold (length commitments + 1))) [
        | inl full ↦ ground (arith, take_all g.params.threshold next)
        | inr waits ↦ rw waits
      ])

  -- The state after the round has closed with these commitments.
  abbrev pub selected : State C → Uuid → RequestEntry C → Map I SigningCommitments → State C
  selected s request_id e commitments =
      let status = signing (signing_package commitments e.message) (key_set commitments) [] in
      record s { requests = insert request_id (record e { status = status }) s.requests }

  first_selected :
      (s : State C) (g : GroupConfig C) (request_id : Uuid) (e : RequestEntry C)
      (commitments : Map I SigningCommitments) (a : I) (ca : SigningCommitments)
      → IsGroup g
      → s.group ≡ some g
      → get request_id s.requests ≡ some e
      → e.status ≡ awaiting_commitments commitments
      → IsStatus g e.message e.randomizer (awaiting_commitments commitments)
      → length commitments + 1 ≡ g.params.threshold
      → contains_key a g.validators ≡ true
      → contains_key a commitments ≡ false
      → apply_tx s (submit_commitment request_id a ca)
        ≡ ok (selected s request_id e (insert a ca commitments))
  unfolding apply_tx apply_submit_commitment record_commitment
  first_selected s g request_id e commitments a ca group found there waits status missing ka fa =
      let next = insert a ca commitments in
      let closes : advance g e.message next
          ≡ signing (signing_package next e.message) (key_set next) [] =
        advance-selects_all g e.message e.randomizer a ca commitments group (omega arith) status fa
        ∙ ground arith in
      rw (found, ka, there, waits, fa, closes)

  late_refused :
      (s : State C) (g : GroupConfig C) (request_id : Uuid) (e : RequestEntry C)
      (commitments : Map I SigningCommitments) (b : I) (cb : SigningCommitments)
      → s.group ≡ some g
      → contains_key b g.validators ≡ true
      → apply_tx (selected s request_id e commitments) (submit_commitment request_id b cb)
        ≡ err not_awaiting_commitments
  unfolding apply_tx apply_submit_commitment record_commitment
  late_refused s g request_id e commitments b cb found kb = rw (found, kb, get-insert_self)

  -- Who is selected depends on the order of arrival. Where one commitment is missing, whichever of
  -- two validators comes first is selected, the other is refused, and the two outcomes differ.
  pub selection_by_arrival :
      (s : State C) (g : GroupConfig C) (request_id : Uuid) (e : RequestEntry C)
      (commitments : Map I SigningCommitments) (a b : I) (ca cb : SigningCommitments)
      → IsGroup g
      → s.group ≡ some g
      → get request_id s.requests ≡ some e
      → e.status ≡ awaiting_commitments commitments
      → IsStatus g e.message e.randomizer (awaiting_commitments commitments)
      → length commitments + 1 ≡ g.params.threshold
      → contains_key a g.validators ≡ true
      → contains_key b g.validators ≡ true
      → contains_key a commitments ≡ false
      → contains_key b commitments ≡ false
      → (a == b) ≡ false
      → let ta = selected s request_id e (insert a ca commitments) in
        let tb = selected s request_id e (insert b cb commitments) in
        (apply_tx s (submit_commitment request_id a ca) ≡ ok ta)
        × (apply_tx ta (submit_commitment request_id b cb) ≡ err not_awaiting_commitments)
        × (apply_tx s (submit_commitment request_id b cb) ≡ ok tb)
        × (apply_tx tb (submit_commitment request_id a ca) ≡ err not_awaiting_commitments)
        × (key_set (insert a ca commitments) ≢ key_set (insert b cb commitments))
  selection_by_arrival s g request_id e commitments a b ca cb group found there waits status missing
        ka kb fa fb differ =
      (
        first_selected s g request_id e commitments a ca group found there waits status missing ka
            fa,
        late_refused s g request_id e (insert a ca commitments) b cb found kb,
        first_selected s g request_id e commitments b cb group found there waits status missing kb
            fb,
        late_refused s g request_id e (insert b cb commitments) a ca found ka,
        selections_differ commitments a b ca cb fa differ,
      )
