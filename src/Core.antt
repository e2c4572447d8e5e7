-- ===== src/Core.antt =====
-- sapphire-core: threshold parameters, request identifiers and key-share bundles.
pub mod Text
use project_sapphire.Base.{
  ℕ, ◌≡◌, ◌||◌, List, ltb, eqb, if◌then◌else◌, Result, ok, err, Ord, nat_ord, list_ord, ap,
  Ordering, String, ◌≤◌, ◌↔◌, arith,
}

-- A `u16` is a number below `u16_mod`, a `usize` one below `usize_mod` (on a 64-bit machine).
abbrev pub u16_mod : ℕ
u16_mod = 65536

abbrev pub usize_mod : ℕ
usize_mod = 18446744073709551616

-- `Vec<u8>`, `[u8; 16]`, `[u8; 32]`
abbrev pub Bytes : Type 0
Bytes = List ℕ

pub record MpcParams : Type 0 where
  pub threshold : ℕ
  pub total : ℕ

-- `Error`. The errors of FROST and of `serde_json` are their texts.
pub data Error : Type 0 where
  -- threshold, total
  invalid_params : ℕ → ℕ → Error
  -- have, need
  not_enough_signers : ℕ → ℕ → Error
  unknown_participant : Error
  duplicate_participant : Error
  session_in_use : Error
  session_not_found : Error
  invalid_commitment : Error
  invalid_signature_share : Error
  frost : String → Error
  serde : String → Error
  transport : String → Error

-- `MpcParams::new`
unfoldable pub new_params : ℕ → ℕ → Result MpcParams Error
new_params threshold total =
    if eqb threshold 0 || eqb total 0 || ltb total threshold
    then err (invalid_params threshold total)
    else ok (record { threshold = threshold; total = total })

-- `MpcParams::new` accepts exactly a threshold from 1 up to the total, and keeps both numbers.
pub new_params-ok_iff :
    (threshold total : ℕ) (p : MpcParams)
    → (new_params threshold total ≡ ok p) ↔ (
        (1 ≤ threshold)
        × (threshold ≤ total)
        × (p ≡ record { threshold = threshold; total = total }))
unfolding new_params
new_params-ok_iff threshold total p = ((λ h. ground arith), (λ h. ground arith))

-- `Uuid(pub [u8; 16])`
pub record Uuid : Type 0 where
  pub bytes : Bytes

eq_of_bytes : (a b : Uuid) → a.bytes ≡ b.bytes → a ≡ b
eq_of_bytes a b h = ap (λ (l : Bytes). let u : Uuid = record { bytes = l } in u) h

pub eq_of_uuid_cmp : (a b : Uuid) → list_ord.cmp a.bytes b.bytes ≡ Ordering.eq → a ≡ b
eq_of_uuid_cmp a b h = eq_of_bytes a b (list_ord.eq_of_cmp a.bytes b.bytes h)

-- `#[derive(PartialOrd, Ord)]`: the order of the byte arrays.
instance abbrev pub uuid_ord : Ord Uuid
uuid_ord = record {
  cmp = λ a b. list_ord.cmp a.bytes b.bytes;
  cmp_self = λ a. list_ord.cmp_self a.bytes;
  eq_of_cmp = eq_of_uuid_cmp;
  cmp_swap = λ a b. list_ord.cmp_swap a.bytes b.bytes;
  cmp_trans = λ a b c. list_ord.cmp_trans a.bytes b.bytes c.bytes;
}
