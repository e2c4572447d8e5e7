-- ===== src/Tests/CliExamples.antt =====
-- The command `oracle` at concrete answers, with decimal numbers of twenty digits.
use Prim.Native.String.{String, [] as empty, ◌∷◌ as ◌∷ₛ◌, char_at}
use Prim.Native.Char.{Char, code}
use native.Mathlib.Omega.{div_any, pow_step}
use native.Mathlib.Nat.{mod-lt, one-le-pow, div-lt_iff_lt-mul}
use project_sapphire.Base.{
  ℕ, zero, suc, ◌≡◌, ◌<◌, ◌≤◌, ◌↔◌, ◌+◌, ◌*◌, ◌-◌, ◌/◌, ◌%◌, ◌^◌, refl, ap, ◌∙◌, nat_ord, list_ord,
  some, [], ◌∷◌, Result, ok, err, arith,
}
use project_sapphire.Base.Map.{get}
use project_sapphire.Core.{Bytes}
use project_sapphire.Escrow.{
  EscrowTerms, SettlementIntent, payee_mismatch, validate_settlement, validate_refund,
}
use project_sapphire.Escrow.Verifiers.{hash_preimage}
use project_sapphire.Node.Policy.{Formats, EscrowPolicy, approve}
use project_sapphire.Cli.Console.{Str, Input, prompt, prompt_u64, u64_mod}
use project_sapphire.Cli.Oracle.{
  release, terms_of, payment_of, propose_release, propose_refund, cmd_oracle, exit_code,
}
use project_sapphire.Cli.Oracle.Laws.{cmd_oracle-agrees, cmd_oracle-blank}

abbrev digit : ℕ → Char
digit d = char_at "0123456789" d

code-digit : (d : ℕ) → d < 10 → code (digit d) ≡ 48 + d
code-digit zero _ = refl
code-digit (suc zero) _ = refl
code-digit (suc (suc zero)) _ = refl
code-digit (suc (suc (suc zero))) _ = refl
code-digit (suc (suc (suc (suc zero)))) _ = refl
code-digit (suc (suc (suc (suc (suc zero))))) _ = refl
code-digit (suc (suc (suc (suc (suc (suc zero)))))) _ = refl
code-digit (suc (suc (suc (suc (suc (suc (suc zero))))))) _ = refl
code-digit (suc (suc (suc (suc (suc (suc (suc (suc zero)))))))) _ = refl
code-digit (suc (suc (suc (suc (suc (suc (suc (suc (suc zero))))))))) _ = refl
code-digit (suc (suc (suc (suc (suc (suc (suc (suc (suc (suc n)))))))))) h = absurd (omega arith)

-- The last `k` digits.
abbrev print : ℕ → ℕ → String
print zero n = ""
print (suc k) n = digit (n / 10 ^ k) ∷ₛ print k (n % 10 ^ k)

abbrev parse : ℕ → String → ℕ
parse acc empty = acc
parse acc (c ∷ₛ s) = parse (10 * acc + (code c - 48)) s

parse-print : (k acc n : ℕ) → n < 10 ^ k → parse acc (print k n) ≡ acc * 10 ^ k + n
parse-print zero acc n h = omega arith
parse-print (suc k) acc n h =
    let p : ℕ = 10 ^ k in
    let whole : p * (n / p) + n % p ≡ n = div_any n p in
    let small : n < 10 * p = let step = pow_step 10 k in omega arith in
    let positive : 1 ≤ p = one-le-pow k 10 (omega arith) in
    let low : n % p < p = mod-lt n positive in
    let high : n / p < 10 = (div-lt_iff_lt-mul positive).1 small in
    let d : code (digit (n / p)) - 48 ≡ n / p = rw (code-digit (n / p) high) omega arith in
    let rest : parse (10 * acc + n / p) (print k (n % p)) ≡ (10 * acc + n / p) * p + n % p =
      parse-print k (10 * acc + n / p) (n % p) low in
    let sum : (10 * acc + n / p) * p + n % p ≡ acc * 10 ^ suc k + n =
      rw (pow_step 10 k) omega arith in
    ap (λ x. parse (10 * acc + x) (print k (n % p))) d ∙ rest ∙ sum

abbrev parse_u64 : String → Result ℕ String
parse_u64 s = ok (parse 0 s)

parse_u64-print : (n : ℕ) → n < u64_mod → parse_u64 (print 20 n) ≡ ok n
parse_u64-print n small =
    let same : parse 0 (print 20 n) ≡ n = parse-print 20 0 n (omega arith) ∙ omega arith in
    ap (λ x. let r : Result ℕ String = ok x in r) same

abbrev first_code : String → Bytes
first_code empty = []
first_code (c ∷ₛ _) = code c ∷ []

abbrev str : Str
str = record {
  trim = λ s. s;
  parse_u64 = parse_u64;
  to_string = print 20;
  as_bytes = first_code;
  trim-empty = refl;
  parse_u64-to_string = parse_u64-print;
}

abbrev sha : Bytes → Bytes
sha b = 1 ∷ b

abbrev answered_terms : EscrowTerms
answered_terms = terms_of 800000000 "u_alice" "u_bob" 1000 (1 ∷ 111 ∷ [])

abbrev intent_to : String → SettlementIntent Bytes
intent_to to = record { payment = payment_of 800000000 to; witness = 111 ∷ [] }

-- Six defaults, and then another payee.
abbrev tampered : Input
tampered = ok "" ∷ ok "" ∷ ok "" ∷ ok "" ∷ ok "" ∷ ok "" ∷ ok "u_attacker" ∷ []

unknown :
    exit_code (cmd_oracle str sha (ok "" ∷ ok "" ∷ ok "" ∷ ok "" ∷ ok "" ∷ ok "burn" ∷ [])) ≡ 1
unfolding cmd_oracle prompt prompt_u64 exit_code
unknown = refl

early :
    exit_code (
      cmd_oracle str sha
        (ok "7" ∷ ok "" ∷ ok "" ∷ ok "" ∷ ok "" ∷ ok "refund" ∷ ok "" ∷ ok "" ∷ ok "999" ∷ []))
    ≡ 1
unfolding cmd_oracle propose_refund prompt prompt_u64 exit_code validate_refund
early = refl

in_time :
    exit_code (cmd_oracle str sha (ok "7" ∷ ok "" ∷ ok "" ∷ ok "" ∷ ok "" ∷ ok "refund" ∷ [])) ≡ 0
unfolding cmd_oracle propose_refund prompt prompt_u64 exit_code validate_refund
in_time = refl

tampered-run :
    cmd_oracle str sha tampered
    ≡ ok (release answered_terms (intent_to "u_attacker") (err payee_mismatch), [])
unfolding cmd_oracle propose_release prompt prompt_u64 validate_settlement
tampered-run = refl

-- Every message is the tampered proposal.
abbrev formats : Formats (hash_preimage sha)
formats = record {
  from_slice =
      λ _. ok (record { escrow_id = answered_terms.escrow_id; intent = intent_to "u_attacker" });
  hex_encode = λ _. "";
  to_string = λ _. "payee mismatch";
}

abbrev policy : EscrowPolicy
policy = record { escrows = (answered_terms.escrow_id, answered_terms) ∷ [] }

policy-knows : get answered_terms.escrow_id policy.escrows ≡ some answered_terms
unfolding get
policy-knows = refl

cmd_oracle-agrees_example :
    (approve formats policy [] ≡ err "payee mismatch")
    × ((exit_code (cmd_oracle str sha tampered) ≡ 0) ↔ (approve formats policy [] ≡ ok tt))
cmd_oracle-agrees_example =
    cmd_oracle-agrees str sha tampered [] answered_terms (intent_to "u_attacker")
      (err payee_mismatch) formats policy [] tampered-run refl policy-knows

defaults : exit_code (cmd_oracle str sha (ok "" ∷ ok "" ∷ [])) ≡ 0
defaults = cmd_oracle-blank str sha (ok "" ∷ ok "" ∷ []) (refl, (refl, tt))
