-- ===== src/Cli/Console.antt =====
-- sapphire-cli/src/main.rs: the prompts, over the lines that standard input will give.
use text.Mathlib.Text
use project_sapphire.Base.{ℕ, ◌≡◌, ◌<◌, List, [], ◌∷◌, String, Result, ok, err, if◌then◌else◌}
use project_sapphire.Core.{Bytes}

abbrev pub u64_mod : ℕ
u64_mod = 18446744073709551616

-- The functions of `str` that the prompts use: `trim`, `parse::<u64>`, `to_string` of a `u64`,
-- and the bytes of a text. An empty text has nothing to trim, and a number that was printed parses
-- to itself.
pub record Str : Type 0 where
  pub trim : String → String
  pub parse_u64 : String → Result ℕ String
  pub to_string : ℕ → String
  pub as_bytes : String → Bytes
  pub trim-empty : trim "" ≡ ""
  pub parse_u64-to_string : (n : ℕ) → n < u64_mod → parse_u64 (to_string n) ≡ ok n

-- What ends a command early: `anyhow::Error`, by its cause.
pub data Failure : Type 0 where
  -- `read_line` fails.
  unreadable : String → Failure
  not_a_number : String → Failure
  unknown_action : String → Failure

-- Standard input: for each line to come what `read_line` gives; at its end lines are empty.
abbrev pub Input : Type 0
Input = List (Result String String)

-- Code that reads lines and stops at the first error.
abbrev pub Console : Type 0 → Type 0
Console A = Input → Result (A × Input) Failure

abbrev pub continue :
    {A B : Type 0} → Result (A × Input) Failure → (A → Console B) → Result (B × Input) Failure
continue (err e) next = err e
continue (ok (a, rest)) next = next a rest

infixl 5 ◌>>=◌
abbrev pub ◌>>=◌ : {A B : Type 0} → Console A → (A → Console B) → Console B
◌>>=◌ m next input = continue (m input) next

-- `return Err(…)`
abbrev pub throw : {A : Type 0} → Failure → Console A
throw e _ = err e

abbrev pub read_line : Console String
read_line [] = ok ("", [])
read_line (ok line ∷ rest) = ok (line, rest)
read_line (err e ∷ _) = err (unreadable e)

abbrev pub next_line : Input → Input
next_line [] = []
next_line (_ ∷ rest) = rest

module _ (S : Str) where
  -- The answer in a line, which is the default where nothing but space stands in it.
  abbrev pub answer : String → String → String
  answer default line = let s = S.trim line in if Text.◌==◌ s "" then default else s

  unfoldable pub prompt : String → Console String
  prompt default = do line ← read_line; λ rest. ok (answer default line, rest)

  abbrev pub number : String → Console ℕ
  number s rest = elim (S.parse_u64 s) [ ok n ↦ ok (n, rest) | err _ ↦ err (not_a_number s) ]

  unfoldable pub prompt_u64 : ℕ → Console ℕ
  prompt_u64 default = do s ← prompt (S.to_string default); number s

  -- Lines that keep the default, up to the end of the input.
  abbrev pub IsBlank : Input → Type 0
  IsBlank [] = Unit {0}
  IsBlank (ok line ∷ rest) = (S.trim line ≡ "") × IsBlank rest
  IsBlank (err _ ∷ _) = ⊥

  pub next_line-IsBlank : (input : Input) → IsBlank input → IsBlank (next_line input)
  next_line-IsBlank [] blank = tt
  next_line-IsBlank (ok line ∷ rest) blank = blank.1
  next_line-IsBlank (err _ ∷ _) blank = absurd blank

  pub prompt-blank :
      (default : String) (input : Input)
      → IsBlank input
      → prompt default input ≡ ok (default, next_line input)
  unfolding prompt
  prompt-blank default [] blank = rw S.trim-empty
  prompt-blank default (ok line ∷ rest) blank = rw blank.0
  prompt-blank default (err _ ∷ _) blank = absurd blank

  pub prompt_u64-blank :
      (default : ℕ) (input : Input)
      → default < u64_mod
      → IsBlank input
      → prompt_u64 default input ≡ ok (default, next_line input)
  unfolding prompt_u64
  prompt_u64-blank default input small blank =
      rw (prompt-blank (S.to_string default) input blank)
        (rw (number, S.parse_u64-to_string default small))
