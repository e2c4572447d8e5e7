-- ===== src/Core/Text.antt =====
-- sapphire-core/src/protocol.rs: a request id as text. The crate hex is a parameter.
use project_sapphire.Base.{
  ◌≡◌, ◌<◌, ◌↔◌, not, [], ◌∷◌, String, Result, ok, err, length, eqb, if◌then◌else◌, arith,
}
use project_sapphire.Core.{Bytes, Uuid}

-- A `Vec<u8>`: every element is a byte.
abbrev pub AreBytes : Bytes → Type 0
AreBytes [] = Unit {0}
AreBytes (b ∷ bs) = (b < 256) × AreBytes bs

-- The crate hex, over the texts of the format: what is encoded decodes to the same bytes.
pub record Hex (Text : Type 0) : Type 0 where
  pub encode : Bytes → Text
  pub decode : Text → Result Bytes String
  pub decode-encode : (bs : Bytes) → AreBytes bs → decode (encode bs) ≡ ok bs

module _ {Text : Type 0} (H : Hex Text) where
  -- `Uuid::to_hex`, which `Display` and `serialize` print.
  unfoldable pub to_hex : Uuid → Text
  to_hex u = H.encode u.bytes

  -- `Uuid::deserialize`, of a text that the format gives.
  unfoldable pub deserialize_uuid : Text → Result Uuid String
  deserialize_uuid s = elim (H.decode s) [
    | err e ↦ err e
    | ok bytes ↦
        if not (eqb (length bytes) 16)
        then err "Uuid must be 16 bytes"
        else ok (record { bytes = bytes })
  ]

  -- The text of an id reads back as this id exactly where it has 16 bytes, which all ids of the
  -- program have; and no text reads as an id of another length.
  pub deserialize_uuid-to_hex :
      (u : Uuid)
      → AreBytes u.bytes
      → ((deserialize_uuid (to_hex u) ≡ ok u) ↔ (length u.bytes ≡ 16))
        × ((s : Text) (v : Uuid) → deserialize_uuid s ≡ ok v → length v.bytes ≡ 16)
  unfolding deserialize_uuid to_hex
  deserialize_uuid-to_hex u bytes =
      (((λ h. reads (to_hex u) u h), (λ h. ground (arith, H.decode-encode u.bytes bytes))), reads)
    where
      reads : (s : Text) (v : Uuid) → deserialize_uuid s ≡ ok v → length v.bytes ≡ 16
      reads s v h = ground arith
