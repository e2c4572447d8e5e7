-- ===== src/Tests/EscrowExamples.antt =====
-- The escrow predicates, their policy, and the theorems on them at concrete data.
use Prim.Native.String.{String}
use project_sapphire.Base.{
  ℕ, zero, suc, ◌≡◌, ◌≢◌, ◌↔◌, ◌≤◌, ◌<◌, refl, some, [], ◌∷◌, nat_ord, list_ord, ok, err, Result,
  length, true, false,
}
use project_sapphire.Base.Map.{get, insert}
use project_sapphire.Core.{Bytes}
use project_sapphire.Escrow.{
  Address, EscrowTerms, PaymentLeg, SettlementIntent, RefundIntent, ReleaseProposal, EscrowError,
  amount_mismatch, payee_mismatch, condition_not_met, refund_too_early, refund_payee_mismatch,
  validate_settlement, validate_refund,
}
use project_sapphire.Escrow.Laws.{
  same_address_iff, validate_settlement-cases, validate_refund-cases,
}
use project_sapphire.Escrow.Verifiers.{hash_preimage, settlement-hash_preimage}
use project_sapphire.Escrow.Exclusion.{release-excludes_refund}
use project_sapphire.Node.Policy.{
  Formats, EscrowPolicy, new_policy, with_escrow, approve, approve_iff,
}

-- A digest of 32 bytes: the length, then zeros.
abbrev pub zeros : ℕ → Bytes
zeros zero = []
zeros (suc n) = 0 ∷ zeros n

abbrev pub sha : Bytes → Bytes
sha b = length b ∷ zeros 31

abbrev alice : Address
alice = record { text = "u_alice" }

abbrev bob : Address
bob = record { text = "u_bob" }

abbrev pub terms : EscrowTerms
terms = record {
  escrow_id = 7 ∷ [];
  amount = record { amount = 800000000 };
  payee = alice;
  refund_to = bob;
  timeout_height = 1000;
  condition = sha (5 ∷ 5 ∷ []);
}

abbrev leg_of : ℕ → Address → PaymentLeg
leg_of n to = record { amount = record { amount = n }; to = to }

abbrev release : ℕ → Address → Bytes → SettlementIntent Bytes
release n to witness = record { payment = leg_of n to; witness = witness }

abbrev refund : Address → RefundIntent
refund to = record { payment = leg_of 800000000 to }

valid_release :
    validate_settlement (hash_preimage sha) terms (release 800000000 alice (5 ∷ 5 ∷ [])) ≡ ok tt
unfolding validate_settlement
valid_release = refl

underpayment :
    validate_settlement (hash_preimage sha) terms (release 1 alice (5 ∷ 5 ∷ []))
    ≡ err (amount_mismatch (record { amount = 800000000 }) (record { amount = 1 }))
unfolding validate_settlement
underpayment = refl

wrong_payee :
    validate_settlement (hash_preimage sha) terms (release 800000000 bob (5 ∷ 5 ∷ []))
    ≡ err payee_mismatch
unfolding validate_settlement
wrong_payee = refl

wrong_preimage :
    validate_settlement (hash_preimage sha) terms (release 800000000 alice (5 ∷ []))
    ≡ err condition_not_met
unfolding validate_settlement
wrong_preimage = refl

too_early : validate_refund terms (refund bob) 999 ≡ err (refund_too_early 999 1000)
unfolding validate_refund
too_early = refl

in_time : validate_refund terms (refund bob) 1000 ≡ ok tt
unfolding validate_refund
in_time = refl

wrong_refund : validate_refund terms (refund alice) 1000 ≡ err refund_payee_mismatch
unfolding validate_refund
wrong_refund = refl

validate_settlement-cases_example :
    let intent = release 800000000 alice (5 ∷ []) in
    let outcome = validate_settlement (hash_preimage sha) terms intent in
    ((outcome ≡ ok tt) ↔ (
      (intent.payment.amount ≡ terms.amount)
      × (alice ≡ alice)
      × ((hash_preimage sha).verify terms intent.witness ≡ true)))
    × ((outcome ≡ err (amount_mismatch terms.amount intent.payment.amount))
        ↔ (intent.payment.amount ≢ terms.amount))
    × ((outcome ≡ err payee_mismatch) ↔ ((intent.payment.amount ≡ terms.amount) × (alice ≢ alice)))
    × ((outcome ≡ err condition_not_met) ↔ (
        (intent.payment.amount ≡ terms.amount)
        × (alice ≡ alice)
        × ((hash_preimage sha).verify terms intent.witness ≡ false)))
validate_settlement-cases_example =
    validate_settlement-cases (hash_preimage sha) terms (release 800000000 alice (5 ∷ []))

validate_refund-cases_example :
    let outcome = validate_refund terms (refund bob) 999 in
    ((outcome ≡ ok tt) ↔ (
      (terms.timeout_height ≤ 999)
      × (bob ≡ terms.refund_to)
      × ((refund bob).payment.amount ≡ terms.amount)))
    × ((outcome ≡ err (refund_too_early 999 1000)) ↔ (999 < terms.timeout_height))
    × ((outcome ≡ err refund_payee_mismatch)
        ↔ ((terms.timeout_height ≤ 999) × (bob ≢ terms.refund_to)))
    × ((outcome ≡ err (amount_mismatch terms.amount (refund bob).payment.amount)) ↔ (
        (terms.timeout_height ≤ 999)
        × (bob ≡ terms.refund_to)
        × ((refund bob).payment.amount ≢ terms.amount)))
validate_refund-cases_example = validate_refund-cases terms (refund bob) 999

alice-ne-bob : alice ≢ bob
alice-ne-bob p = let h : false ≡ true = (same_address_iff alice bob).1 p in cc

release-excludes_refund_example :
    validate_refund terms (record { payment = leg_of 800000000 alice }) 5000 ≢ ok tt
release-excludes_refund_example =
    release-excludes_refund (hash_preimage sha) terms (leg_of 800000000 alice) (5 ∷ 5 ∷ []) 5000
      alice-ne-bob valid_release

sha-long : (preimage : Bytes) → length (sha preimage) ≡ 32
sha-long preimage = refl

settlement-hash_preimage_example :
    (sha (5 ∷ 5 ∷ []) ≡ terms.condition) × (length terms.condition ≡ 32)
settlement-hash_preimage_example =
    settlement-hash_preimage sha terms (release 800000000 alice (5 ∷ 5 ∷ [])) sha-long valid_release

-- A proposal is the id of its escrow and the witness; it pays Alice.
abbrev decode : Bytes → Result (ReleaseProposal Bytes) String
decode [] = err "EOF while parsing"
decode (i ∷ witness) = ok (record { escrow_id = i ∷ []; intent = release 800000000 alice witness })

abbrev text_of : EscrowError → String
text_of _ = "rejected"

abbrev pub formats : Formats (hash_preimage sha)
formats = record { from_slice = decode; hex_encode = λ id. "id"; to_string = text_of }

abbrev pub policy : EscrowPolicy
unfolding with_escrow insert
policy = with_escrow new_policy terms

approves : approve formats policy (7 ∷ 5 ∷ 5 ∷ []) ≡ ok tt
unfolding approve get validate_settlement policy
approves = refl

refuses : approve formats policy (7 ∷ 5 ∷ []) ≡ err "rejected"
unfolding approve get validate_settlement policy
refuses = refl

unknown : approve formats policy (8 ∷ 5 ∷ []) ≡ err "unknown escrow id"
unfolding approve get policy
unknown = refl

approve_iff_example : (approve formats policy (7 ∷ 5 ∷ 5 ∷ []) ≡ ok tt) ↔ (
    (proposal : ReleaseProposal Bytes) × (t : EscrowTerms) × (decode (7 ∷ 5 ∷ 5 ∷ []) ≡ ok proposal)
    × (get proposal.escrow_id policy.escrows ≡ some t)
    × (proposal.intent.payment.amount ≡ t.amount)
    × (proposal.intent.payment.to ≡ t.payee)
    × ((hash_preimage sha).verify t proposal.intent.witness ≡ true))
approve_iff_example = approve_iff formats policy (7 ∷ 5 ∷ 5 ∷ [])
