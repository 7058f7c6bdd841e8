-- ===== src/Transport/Fault.antt =====
-- src/transport/transport_executor/transport_packet.h: `FaultPacket`, its checks and its coding. The
-- pointers that `EncodeFault` and `DecodeFault` get are never null at their calls.
use humanoid_common.Prelude.{
  ℕ, ◌≡◌, refl, ap, ◌∙◌, Bool, true, false, ◌&&◌, ◌||◌, not, Option, some, none, [], Text, ℤ, pos,
  int_eq, is_empty, has_nul, until_nul, get_or, leb, ◌==◌, arith, if◌then◌else◌,
}
use humanoid_common.Floats.{Float, nought}
use humanoid_common.RobotBase.{FaultStatus, is_valid_fault_source, is_valid_fault_code}
use humanoid_common.RobotBase.FaultSource
use humanoid_common.RobotBase.FaultCode
use humanoid_common.Transport.Buffer.{
  fault_detail_length, fill, detail_for_packet, detail_for_packet-fits, until_nul-fill,
  has_nul-fill,
}

pub record FaultPacket (F : Type 0) : Type 0 where
  pub sequence : ℕ
  pub timestamp_s : F
  pub native_code : ℤ
  pub code : ℤ
  pub source : ℕ
  pub active : ℕ
  pub latched : ℕ
  pub detail : Text

-- `flag ? 1 : 0`.
abbrev pub flag : Bool → ℕ
flag true = 1
flag false = 0

pub read_flag : (b : Bool) → not (flag b == 0) ≡ b
read_flag true = refl
read_flag false = refl

module _ {F : Type 0} ⦃f : Float F⦄ where
  -- `ValidFaultPacket`.
  unfoldable pub valid_fault_packet : FaultPacket F → Bool
  valid_fault_packet p =
      if not (leb p.active 1) || not (leb p.latched 1)
      then false
      else if not (p.active == 0) && (p.latched == 0)
      then false
      else if not (f.is_finite p.timestamp_s)
          || (f.lt p.timestamp_s nought || not (has_nul p.detail))
      then false
      else if not (is_valid_fault_source p.source) || not (is_valid_fault_code p.code)
      then false
      else if p.latched == 0
      then (p.source == FaultSource.unset)
        && (int_eq p.code FaultCode.unset
            && (int_eq p.native_code (pos 0)
                && ((p.sequence == 0)
                    && (f.eq p.timestamp_s nought && (get_or p.detail 0 0 == 0)))))
      else not (p.source == FaultSource.unset)
        && (not (int_eq p.code FaultCode.unset) && not (p.sequence == 0))

  -- `CanEncodeFault`.
  unfoldable pub can_encode_fault : FaultStatus F → Bool
  can_encode_fault x =
      if not (is_valid_fault_source x.source)
        || (not (is_valid_fault_code x.code)
            || (not (f.is_finite x.timestamp_s)
                || (f.lt x.timestamp_s nought
                    || ((x.active && not x.latched) || has_nul x.detail))))
      then false
      else if not x.latched
      then (x.source == FaultSource.unset)
        && (int_eq x.code FaultCode.unset
            && (int_eq x.native_code (pos 0)
                && ((x.sequence == 0) && (f.eq x.timestamp_s nought && is_empty x.detail))))
      else not (x.source == FaultSource.unset)
        && (not (int_eq x.code FaultCode.unset) && not (x.sequence == 0))

  -- `EncodeFault`.
  unfoldable pub encode_fault : FaultStatus F → FaultPacket F
  unfolding detail_for_packet
  encode_fault x = record {
    sequence = x.sequence;
    timestamp_s = x.timestamp_s;
    native_code = x.native_code;
    code = x.code;
    source = x.source;
    active = flag x.active;
    latched = flag x.latched;
    detail = fill fault_detail_length (detail_for_packet x.detail);
  }

  -- `DecodeFault`.
  unfoldable pub decode_fault : FaultPacket F → Option (FaultStatus F)
  unfolding valid_fault_packet
  decode_fault p =
      if not (valid_fault_packet p)
      then none
      else some (record {
        active = not (p.active == 0);
        latched = not (p.latched == 0);
        source = p.source;
        code = p.code;
        native_code = p.native_code;
        sequence = p.sequence;
        timestamp_s = p.timestamp_s;
        detail = until_nul p.detail;
      })

  no_nul : (x : FaultStatus F) → can_encode_fault x ≡ true → has_nul x.detail ≡ false
  unfolding can_encode_fault
  no_nul x h = ground (arith, h)

  empty_of_quiet :
      (x : FaultStatus F) → can_encode_fault x ≡ true → x.latched ≡ false → x.detail ≡ []
  unfolding can_encode_fault
  empty_of_quiet x h q = ground (arith, h, q)

  first_is_nul :
      (x : FaultStatus F)
      → can_encode_fault x ≡ true
      → x.latched ≡ false
      → (get_or (encode_fault x).detail 0 0 == 0) ≡ true
  unfolding encode_fault detail_for_packet
  first_is_nul x h q = rw (empty_of_quiet x h q) refl

  -- The packet of a fault, over any buffer for its detail.
  abbrev packet : FaultStatus F → Text → FaultPacket F
  packet x buffer = record {
    sequence = x.sequence;
    timestamp_s = x.timestamp_s;
    native_code = x.native_code;
    code = x.code;
    source = x.source;
    active = flag x.active;
    latched = flag x.latched;
    detail = buffer;
  }

  packet-valid :
      (x : FaultStatus F) (buffer : Text)
      → can_encode_fault x ≡ true
      → has_nul buffer ≡ true
      → (x.latched ≡ false → (get_or buffer 0 0 == 0) ≡ true)
      → valid_fault_packet (packet x buffer) ≡ true
  unfolding can_encode_fault valid_fault_packet
  packet-valid x buffer h t z = ground (arith, h, t, z)

  packet-decode :
      (x : FaultStatus F) (buffer : Text)
      → valid_fault_packet (packet x buffer) ≡ true
      → decode_fault (packet x buffer) ≡ some (record x { detail = until_nul buffer })
  unfolding decode_fault
  packet-decode x buffer h = rw (h, read_flag x.active, read_flag x.latched) refl

  -- What may be encoded becomes a packet that every receiver accepts.
  pub encode_fault-valid :
      (x : FaultStatus F) → can_encode_fault x ≡ true → valid_fault_packet (encode_fault x) ≡ true
  unfolding encode_fault
  encode_fault-valid x h =
      let fits = detail_for_packet-fits x.detail (no_nul x h) in
      packet-valid x (fill fault_detail_length (detail_for_packet x.detail)) h
        (has_nul-fill fault_detail_length (detail_for_packet x.detail) fits.0) (first_is_nul x h)

  -- A fault that may be encoded is decoded as it was, but for a detail that is too long for its buffer.
  pub fault_round_trip :
      (x : FaultStatus F)
      → can_encode_fault x ≡ true
      → decode_fault (encode_fault x) ≡ some (record x { detail = detail_for_packet x.detail })
  unfolding encode_fault
  fault_round_trip x h =
      let fits = detail_for_packet-fits x.detail (no_nul x h) in
      packet-decode x (fill fault_detail_length (detail_for_packet x.detail))
        (encode_fault-valid x h)
      ∙ ap (λ t. some (record x { detail = t }))
          (until_nul-fill fault_detail_length (detail_for_packet x.detail) fits.0 fits.1)
