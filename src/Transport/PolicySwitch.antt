-- ===== src/Transport/PolicySwitch.antt =====
-- src/transport/transport_executor/transport_packet.h: `PolicySwitchPacket`, its checks and its coding.
use humanoid_common.Prelude.{
  ℕ, ◌<◌, ◌≡◌, refl, Bool, true, false, ◌&&◌, ◌||◌, not, [], ◌∷◌, Text, is_empty, has_nul,
  until_nul, length, leb, ◌==◌, arith, if◌then◌else◌, subst, sym,
}
use humanoid_common.RobotBase.{PolicySwitchStatus}
use humanoid_common.RobotBase.SwitchPhase
use humanoid_common.Transport.Buffer.{
  policy_name_length, fault_detail_length, fill, copy, copy_lem, detail_for_packet,
  detail_for_packet-fits, until_nul-fill, has_nul-fill,
}

pub record PolicySwitchPacket : Type 0 where
  pub sequence : ℕ
  pub phase : ℕ
  pub policy : Text
  pub detail : Text

-- `CanEncodePolicySwitch`.
unfoldable pub can_encode_policy_switch : PolicySwitchStatus → Bool
can_encode_policy_switch s =
    if leb policy_name_length (length s.policy) || (has_nul s.policy || has_nul s.detail)
    then false
    else if s.phase == SwitchPhase.idle
    then (s.sequence == 0) && (is_empty s.policy && is_empty s.detail)
    else if leb s.phase SwitchPhase.rejected
    then not (is_empty s.policy)
    else false

-- `DecodePolicySwitch`.
unfoldable pub decode_policy_switch : PolicySwitchPacket → PolicySwitchStatus
decode_policy_switch p = record {
  sequence = p.sequence;
  phase = p.phase;
  policy = until_nul p.policy;
  detail = until_nul p.detail;
}

-- `ValidPolicySwitchPacket`.
unfoldable pub valid_policy_switch_packet : PolicySwitchPacket → Bool
unfolding can_encode_policy_switch decode_policy_switch
valid_policy_switch_packet p =
    has_nul p.policy && (has_nul p.detail && can_encode_policy_switch (decode_policy_switch p))

-- `EncodePolicySwitch`.
unfoldable pub encode_policy_switch : PolicySwitchStatus → PolicySwitchPacket
unfolding detail_for_packet
encode_policy_switch s = record {
  sequence = s.sequence;
  phase = s.phase;
  policy = copy policy_name_length s.policy;
  detail = copy fault_detail_length (detail_for_packet s.detail);
}

fits_of_can_encode :
    (s : PolicySwitchStatus)
    → can_encode_policy_switch s ≡ true
    → (length s.policy < policy_name_length)
      × (has_nul s.policy ≡ false)
      × (has_nul s.detail ≡ false)
unfolding can_encode_policy_switch
fits_of_can_encode s h = ground (arith, h)

abbrev filled : PolicySwitchStatus → PolicySwitchPacket
filled s = record {
  sequence = s.sequence;
  phase = s.phase;
  policy = fill policy_name_length s.policy;
  detail = fill fault_detail_length (detail_for_packet s.detail);
}

encode-filled :
    (s : PolicySwitchStatus) → can_encode_policy_switch s ≡ true → encode_policy_switch s ≡ filled s
unfolding encode_policy_switch
encode-filled s h =
    let (p, z, z') = fits_of_can_encode s h in
    let (d, dz) = detail_for_packet-fits s.detail z' in
    rw
      (
        copy_lem policy_name_length s.policy p z,
        copy_lem fault_detail_length (detail_for_packet s.detail) d dz,
      )
      refl

-- The detail only matters for the absence of NUL, and of itself where there is none.
other_detail :
    (s : PolicySwitchStatus) (t : Text)
    → can_encode_policy_switch s ≡ true
    → has_nul t ≡ false
    → (is_empty s.detail ≡ true → is_empty t ≡ true)
    → can_encode_policy_switch (record s { detail = t }) ≡ true
unfolding can_encode_policy_switch
other_detail s t h z e = ground (arith, h, z, e)

nothing_to_cut : (d : Text) → is_empty d ≡ true → is_empty (detail_for_packet d) ≡ true
unfolding detail_for_packet
nothing_to_cut [] e = refl
nothing_to_cut (b ∷ d) e = ground arith

decode-filled :
    (s : PolicySwitchStatus)
    → can_encode_policy_switch s ≡ true
    → decode_policy_switch (filled s) ≡ record s { detail = detail_for_packet s.detail }
unfolding decode_policy_switch
decode-filled s h =
    let (p, z, z') = fits_of_can_encode s h in
    let (d, dz) = detail_for_packet-fits s.detail z' in
    rw
      (
        until_nul-fill policy_name_length s.policy p z,
        until_nul-fill fault_detail_length (detail_for_packet s.detail) d dz,
      )
      refl

valid_of_parts :
    (p : PolicySwitchPacket)
    → has_nul p.policy ≡ true
    → has_nul p.detail ≡ true
    → can_encode_policy_switch (decode_policy_switch p) ≡ true
    → valid_policy_switch_packet p ≡ true
unfolding valid_policy_switch_packet
valid_of_parts p a b c = rw (a, b, c) refl

filled-valid :
    (s : PolicySwitchStatus)
    → can_encode_policy_switch s ≡ true
    → valid_policy_switch_packet (filled s) ≡ true
filled-valid s h =
    let (p, z, z') = fits_of_can_encode s h in
    let (d, dz) = detail_for_packet-fits s.detail z' in
    valid_of_parts (filled s) (has_nul-fill policy_name_length s.policy p)
      (has_nul-fill fault_detail_length (detail_for_packet s.detail) d)
      (subst (λ q. can_encode_policy_switch q ≡ true) (sym (decode-filled s h))
        (other_detail s (detail_for_packet s.detail) h dz (nothing_to_cut s.detail)))

-- The result of a request for a policy that may be encoded is decoded as it was, but for a detail that is
-- too long for its buffer, and its packet passes the receiver's check.
pub policy_switch_round_trip :
    (s : PolicySwitchStatus)
    → can_encode_policy_switch s ≡ true
    → (decode_policy_switch (encode_policy_switch s)
        ≡ record s { detail = detail_for_packet s.detail })
      × (valid_policy_switch_packet (encode_policy_switch s) ≡ true)
policy_switch_round_trip s h = rw (encode-filled s h) (decode-filled s h, filled-valid s h)
