-- ===== src/Protocol/Frames.antt =====
-- The discriminator byte of binary frames (golang/protocol/message.go, `Marshal`, `Unmarshal`).
use how.Base.{Bytes, ◌≡◌, ◌↔◌, [], ◌∷◌, arith}
use how.Outcome.{ok}
use how.Protocol.Message.{Envelope, protocol_byte}
use how.Protocol.Codecs.{MsgPack}
use how.Protocol.Wire.{marshal, unmarshal}

module _ (mp : MsgPack) where
  -- A frame around an envelope that the library reads back.
  pub unmarshal-marshal :
      (e : Envelope) (packed : Bytes)
      → mp.marshal_envelope e ≡ ok packed
      → mp.unmarshal_envelope packed ≡ ok e
      → (marshal mp e ≡ ok (protocol_byte ∷ packed))
        × (unmarshal mp (protocol_byte ∷ packed) ≡ ok e)
  unfolding marshal unmarshal
  unmarshal-marshal e packed wrote read = (ground arith, ground arith)

  -- `unmarshal` accepts a frame as an envelope exactly when the frame is the protocol byte followed by
  -- bytes that the library reads as that envelope.
  pub unmarshal_accepts :
      (bytes : Bytes) (e : Envelope)
      → (unmarshal mp bytes ≡ ok e) ↔ (
          (packed : Bytes) × (bytes ≡ protocol_byte ∷ packed)
          × (mp.unmarshal_envelope packed ≡ ok e))
  unfolding unmarshal
  unmarshal_accepts [] e = ground arith
  unmarshal_accepts (b ∷ packed) e =
      ((λ h. (packed, ground arith, ground arith)), (λ (rest, same, read). ground arith))
