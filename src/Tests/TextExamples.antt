-- ===== src/Tests/TextExamples.antt =====
-- The text of a request id at concrete bytes, with two digits of four bits for a byte.
use project_sapphire.Base.{
  ℕ, ◌≡◌, ◌*◌, ◌+◌, ◌↔◌, refl, List, [], ◌∷◌, String, Result, ok, err, length, arith, ◌%◌, ◌/◌,
}
use project_sapphire.Core.{Bytes, Uuid}
use project_sapphire.Core.Text.{AreBytes, Hex, to_hex, deserialize_uuid, deserialize_uuid-to_hex}

-- The digits of a text.
abbrev Digits : Type 0
Digits = List ℕ

abbrev encode_digits : Bytes → Digits
encode_digits [] = []
encode_digits (b ∷ bs) = (b / 16) ∷ (b % 16) ∷ encode_digits bs

abbrev prepend : ℕ → Result Bytes String → Result Bytes String
prepend b (ok bs) = ok (b ∷ bs)
prepend _ (err e) = err e

abbrev decode_digits : Digits → Result Bytes String
decode_digits [] = ok []
decode_digits (_ ∷ []) = err "Odd number of digits"
decode_digits (high ∷ low ∷ digits) = prepend (16 * high + low) (decode_digits digits)

decode_digits-encode_digits : (bs : Bytes) → AreBytes bs → decode_digits (encode_digits bs) ≡ ok bs
decode_digits-encode_digits [] _ = refl
decode_digits-encode_digits (b ∷ bs) (_, rest) =
    let whole : 16 * (b / 16) + b % 16 ≡ b = omega arith in
    rw (decode_digits-encode_digits bs rest, whole)

abbrev digits : Hex Digits
digits = record {
  encode = encode_digits;
  decode = decode_digits;
  decode-encode = decode_digits-encode_digits;
}

abbrev an_id : Uuid
an_id = record {
  bytes =
      0 ∷ 17 ∷ 34 ∷ 51 ∷ 68 ∷ 85 ∷ 102 ∷ 119 ∷ 136 ∷ 153 ∷ 170 ∷ 187 ∷ 204 ∷ 221 ∷ 238 ∷ 255 ∷ [];
}

abbrev a_short_id : Uuid
a_short_id = record { bytes = 7 ∷ 255 ∷ [] }

reads_back : deserialize_uuid digits (to_hex digits an_id) ≡ ok an_id
unfolding deserialize_uuid to_hex
reads_back = refl

refuses_short : deserialize_uuid digits (to_hex digits a_short_id) ≡ err "Uuid must be 16 bytes"
unfolding deserialize_uuid to_hex
refuses_short = refl

deserialize_uuid-to_hex_example :
    ((deserialize_uuid digits (to_hex digits a_short_id) ≡ ok a_short_id)
      ↔ (length a_short_id.bytes ≡ 16))
    × ((s : Digits) (v : Uuid) → deserialize_uuid digits s ≡ ok v → length v.bytes ≡ 16)
deserialize_uuid-to_hex_example =
    deserialize_uuid-to_hex digits a_short_id ((omega arith, (omega arith, tt)))
