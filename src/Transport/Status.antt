-- ===== src/Transport/Status.antt =====
-- src/transport/transport_executor/transport_packet.h: `ControlStatusPacket`, and transport_udp_impl.cpp:
-- `SendStatusV2` and `RecvStatusV2` over a packet that arrives as it was sent.
use humanoid_common.Prelude.{
  ℕ, ◌<◌, ◌≡◌, refl, ap, ◌∙◌, Bool, true, false, ◌&&◌, ◌||◌, not, Option, some, none, Text, ℤ,
  is_empty, has_nul, until_nul, length, ltb, leb, ◌==◌, both, arith, if◌then◌else◌, subst, sym,
}
use humanoid_common.Floats.{Float, nought, one}
use humanoid_common.RobotBase.{ControlStatus, InteractionStatus, FaultStatus}
use humanoid_common.RobotBase.Phase
use humanoid_common.Transport.Buffer.{
  policy_name_length, interaction_name_length, fill, copy, copy_lem, until_nul-fill, has_nul-fill,
  detail_for_packet,
}
use humanoid_common.Transport.Header.{
  PacketHeader, control_status, next_header, valid_header, valid_control_mode, valid_phase,
}
use humanoid_common.Transport.Fault.{
  FaultPacket, flag, read_flag, can_encode_fault, valid_fault_packet, encode_fault, decode_fault,
  encode_fault-valid, fault_round_trip,
}
use humanoid_common.Transport.PolicySwitch.{
  PolicySwitchPacket, can_encode_policy_switch, valid_policy_switch_packet, encode_policy_switch,
  decode_policy_switch, policy_switch_round_trip,
}

pub record ControlStatusPacket (F : Type 0) : Type 0 where
  pub header : PacketHeader
  pub control_mode : ℤ
  pub zero_ready : ℕ
  pub hmi_connected : ℕ
  pub reserved : ℕ
  pub vx : F
  pub vy : F
  pub wz : F
  pub rl_frequency_hz : F
  pub active_policy : Text
  pub interaction_sequence : ℕ
  pub interaction_request_accepted : ℕ
  pub interaction_phase : ℕ
  pub interaction_progress : F
  pub interaction_action : Text
  pub policy_switch : PolicySwitchPacket
  pub fault : FaultPacket F

module _ {F : Type 0} ⦃f : Float F⦄ where
  -- `CanEncodeInteractionStatus`.
  unfoldable pub can_encode_interaction_status : InteractionStatus F → Bool
  can_encode_interaction_status s =
      if not (valid_phase s.phase)
        || (not (f.is_finite s.progress)
            || (f.lt s.progress nought
                || (f.lt one s.progress
                    || (leb interaction_name_length (length s.action) || has_nul s.action))))
      then false
      else if s.phase == Phase.idle
      then is_empty s.action
      else not (s.sequence == 0) && not (is_empty s.action)

  -- `CanEncodeStatus`.
  unfoldable pub can_encode_status : ControlStatus F → FaultStatus F → Bool
  unfolding can_encode_interaction_status can_encode_policy_switch can_encode_fault
  can_encode_status s x =
      valid_control_mode s.mode
      && (f.is_finite s.vx
          && (f.is_finite s.vy
              && (f.is_finite s.wz
                  && (f.is_finite s.rl_frequency_hz
                      && (f.le nought s.rl_frequency_hz
                          && (ltb (length s.active_policy) policy_name_length
                              && (not (has_nul s.active_policy)
                                  && (can_encode_interaction_status s.interaction
                                      && (can_encode_policy_switch s.policy_switch
                                          && can_encode_fault x)))))))))

  abbrev pub packet_status : ControlStatusPacket F → InteractionStatus F
  packet_status p = record {
    sequence = p.interaction_sequence;
    request_accepted = not (p.interaction_request_accepted == 0);
    phase = p.interaction_phase;
    progress = p.interaction_progress;
    action = until_nul p.interaction_action;
  }

  -- `ValidControlStatusPacket`.
  unfoldable pub valid_control_status_packet : ControlStatusPacket F → Bool
  unfolding can_encode_interaction_status valid_policy_switch_packet valid_fault_packet
  valid_control_status_packet p =
      valid_header p.header control_status
      && (valid_control_mode p.control_mode
          && (leb p.zero_ready 1
              && (leb p.hmi_connected 1
                  && ((p.reserved == 0)
                      && (f.is_finite p.vx
                          && (f.is_finite p.vy
                              && (f.is_finite p.wz
                                  && (f.is_finite p.rl_frequency_hz
                                      && (f.le nought p.rl_frequency_hz
                                          && (has_nul p.active_policy
                                              && (leb p.interaction_request_accepted 1
                                                  && (valid_phase p.interaction_phase
                                                      && (f.is_finite p.interaction_progress
                                                          && (has_nul p.interaction_action
                                                            && (can_encode_interaction_status
                                                            (packet_status p)
                                                            && (valid_policy_switch_packet
                                                            p.policy_switch
                                                            && valid_fault_packet
                                                            p.fault))))))))))))))))

  -- What `SendStatusV2` writes into the packet.
  abbrev pub status_packet : ℕ → ControlStatus F → FaultStatus F → ControlStatusPacket F
  status_packet seq s x = record {
    header = next_header control_status seq;
    control_mode = s.mode;
    zero_ready = flag s.zero_ready;
    hmi_connected = flag s.hmi_connected;
    reserved = 0;
    vx = s.vx;
    vy = s.vy;
    wz = s.wz;
    rl_frequency_hz = s.rl_frequency_hz;
    active_policy = copy policy_name_length s.active_policy;
    interaction_sequence = s.interaction.sequence;
    interaction_request_accepted = flag s.interaction.request_accepted;
    interaction_phase = s.interaction.phase;
    interaction_progress = s.interaction.progress;
    interaction_action = copy interaction_name_length s.interaction.action;
    policy_switch = encode_policy_switch s.policy_switch;
    fault = encode_fault x;
  }

  -- `SendStatusV2` up to the socket.
  unfoldable pub send_status : ℕ → ControlStatus F → FaultStatus F → Option (ControlStatusPacket F)
  unfolding can_encode_status valid_control_status_packet
  send_status seq s x =
      if not (can_encode_status s x)
      then none
      else if not (valid_control_status_packet (status_packet seq s x))
      then none
      else some (status_packet seq s x)

  abbrev pub read_status : ControlStatusPacket F → ControlStatus F
  read_status p = record {
    mode = p.control_mode;
    zero_ready = not (p.zero_ready == 0);
    hmi_connected = not (p.hmi_connected == 0);
    vx = p.vx;
    vy = p.vy;
    wz = p.wz;
    rl_frequency_hz = p.rl_frequency_hz;
    active_policy = until_nul p.active_policy;
    interaction = packet_status p;
    policy_switch = decode_policy_switch p.policy_switch;
  }

  -- `RecvStatusV2` on a packet of the right size.
  unfoldable pub recv_status : ControlStatusPacket F → Option (ControlStatus F × FaultStatus F)
  unfolding valid_control_status_packet decode_fault
  recv_status p =
      if not (valid_control_status_packet p)
      then none
      else elim (decode_fault p.fault) [ none ↦ none | some x ↦ some (read_status p, x) ]

  -- The packet over any buffers and any inner packets.
  abbrev over :
      ℕ → ControlStatus F → Text → Text → PolicySwitchPacket → FaultPacket F → ControlStatusPacket F
  over seq s policy action switch x = record {
    header = next_header control_status seq;
    control_mode = s.mode;
    zero_ready = flag s.zero_ready;
    hmi_connected = flag s.hmi_connected;
    reserved = 0;
    vx = s.vx;
    vy = s.vy;
    wz = s.wz;
    rl_frequency_hz = s.rl_frequency_hz;
    active_policy = policy;
    interaction_sequence = s.interaction.sequence;
    interaction_request_accepted = flag s.interaction.request_accepted;
    interaction_phase = s.interaction.phase;
    interaction_progress = s.interaction.progress;
    interaction_action = action;
    policy_switch = switch;
    fault = x;
  }

  -- The parts of `CanEncodeStatus` after those on single numbers.
  parts :
      (s : ControlStatus F) (x : FaultStatus F)
      → can_encode_status s x ≡ true
      → (ltb (length s.active_policy) policy_name_length ≡ true)
        × (not (has_nul s.active_policy) ≡ true)
        × (can_encode_interaction_status s.interaction ≡ true)
        × (can_encode_policy_switch s.policy_switch ≡ true)
        × (can_encode_fault x ≡ true)
  unfolding can_encode_status
  parts s x h =
      let numbers =
        both (f.le nought s.rl_frequency_hz) _
          (both (f.is_finite s.rl_frequency_hz) _
            (both (f.is_finite s.wz) _
              (both (f.is_finite s.vy) _
                (both (f.is_finite s.vx) _ (both (valid_control_mode s.mode) _ h).1).1).1).1).1 in
      let size = both (ltb (length s.active_policy) policy_name_length) _ numbers.1 in
      let no_nul = both (not (has_nul s.active_policy)) _ size.1 in
      let interaction = both (can_encode_interaction_status s.interaction) _ no_nul.1 in
      let inner =
        both (can_encode_policy_switch s.policy_switch) (can_encode_fault x) interaction.1 in
      (size.0, no_nul.0, interaction.0, inner.0, inner.1)

  inner_parts :
      (s : ControlStatus F) (x : FaultStatus F)
      → can_encode_status s x ≡ true
      → (can_encode_interaction_status s.interaction ≡ true)
        × (can_encode_policy_switch s.policy_switch ≡ true)
        × (can_encode_fault x ≡ true)
  inner_parts s x h = let (_, _, i, c, q) = parts s x h in (i, c, q)

  policy_fits :
      (s : ControlStatus F) (x : FaultStatus F)
      → can_encode_status s x ≡ true
      → (length s.active_policy < policy_name_length) × (has_nul s.active_policy ≡ false)
  policy_fits s x h = let (a, b, _, _, _) = parts s x h in (ground (arith, a), ground (arith, b))

  action_fits :
      (i : InteractionStatus F)
      → can_encode_interaction_status i ≡ true
      → (length i.action < interaction_name_length) × (has_nul i.action ≡ false)
  unfolding can_encode_interaction_status
  action_fits i h = ground (arith, h)

  progress_is_finite :
      (i : InteractionStatus F)
      → can_encode_interaction_status i ≡ true
      → (f.is_finite i.progress ≡ true) × (valid_phase i.phase ≡ true)
  unfolding can_encode_interaction_status
  progress_is_finite i h = ground (arith, h)

  over-interaction :
      (seq : ℕ) (s : ControlStatus F) (policy action : Text) (switch : PolicySwitchPacket)
      (p : FaultPacket F)
      → until_nul action ≡ s.interaction.action
      → packet_status (over seq s policy action switch p) ≡ s.interaction
  over-interaction seq s policy action switch p e =
      rw (read_flag s.interaction.request_accepted, e) refl

  over-valid :
      (seq : ℕ) (s : ControlStatus F) (x : FaultStatus F) (policy action : Text)
      (switch : PolicySwitchPacket) (p : FaultPacket F)
      → can_encode_status s x ≡ true
      → has_nul policy ≡ true
      → has_nul action ≡ true
      → (f.is_finite s.interaction.progress ≡ true) × (valid_phase s.interaction.phase ≡ true)
      → can_encode_interaction_status (packet_status (over seq s policy action switch p)) ≡ true
      → valid_policy_switch_packet switch ≡ true
      → valid_fault_packet p ≡ true
      → valid_control_status_packet (over seq s policy action switch p) ≡ true
  unfolding can_encode_status valid_control_status_packet
  over-valid seq s x policy action switch p h a b i e v w = ground (arith, h, a, b, i, e, v, w)

  over-recv :
      (seq : ℕ) (s : ControlStatus F) (x : FaultStatus F) (policy action : Text)
      (switch : PolicySwitchPacket) (p : FaultPacket F)
      → valid_control_status_packet (over seq s policy action switch p) ≡ true
      → until_nul policy ≡ s.active_policy
      → until_nul action ≡ s.interaction.action
      → decode_fault p ≡ some x
      → recv_status (over seq s policy action switch p)
        ≡ some (record s { policy_switch = decode_policy_switch switch }, x)
  unfolding recv_status
  over-recv seq s x policy action switch p h a b d =
      rw
        (
          h,
          d,
          a,
          b,
          read_flag s.zero_ready,
          read_flag s.hmi_connected,
          read_flag s.interaction.request_accepted,
        )
        refl

  packet-over :
      (seq : ℕ) (s : ControlStatus F) (x : FaultStatus F)
      → can_encode_status s x ≡ true
      → status_packet seq s x
        ≡ over seq s
            (fill policy_name_length s.active_policy)
            (fill interaction_name_length s.interaction.action)
            (encode_policy_switch s.policy_switch)
            (encode_fault x)
  packet-over seq s x h =
      let (p, z) = policy_fits s x h in
      let (a, az) = action_fits s.interaction (inner_parts s x h).0 in
      rw
        (
          copy_lem policy_name_length s.active_policy p z,
          copy_lem interaction_name_length s.interaction.action a az,
        )
        refl

  filled-valid :
      (seq : ℕ) (s : ControlStatus F) (x : FaultStatus F)
      → can_encode_status s x ≡ true
      → valid_control_status_packet (
          over seq s
            (fill policy_name_length s.active_policy)
            (fill interaction_name_length s.interaction.action)
            (encode_policy_switch s.policy_switch)
            (encode_fault x))
        ≡ true
  filled-valid seq s x h =
      let (p, z) = policy_fits s x h in
      let (i, c, q) = inner_parts s x h in
      let (a, az) = action_fits s.interaction i in
      over-valid seq s x _ _ _ _ h (has_nul-fill policy_name_length s.active_policy p)
        (has_nul-fill interaction_name_length s.interaction.action a)
        (progress_is_finite s.interaction i)
        (subst (λ j. can_encode_interaction_status j ≡ true)
          (sym (
            over-interaction seq s (fill policy_name_length s.active_policy)
              (fill interaction_name_length s.interaction.action)
              (encode_policy_switch s.policy_switch) (encode_fault x)
              (until_nul-fill interaction_name_length s.interaction.action a az)))
          i)
        (policy_switch_round_trip s.policy_switch c).1 (encode_fault-valid x q)

  send_lem :
      (seq : ℕ) (s : ControlStatus F) (x : FaultStatus F)
      → can_encode_status s x ≡ true
      → valid_control_status_packet (status_packet seq s x) ≡ true
      → send_status seq s x ≡ some (status_packet seq s x)
  unfolding send_status
  send_lem seq s x h v = rw (h, v) refl

  -- A status with its fault that may be encoded is sent, and the receiver reads both as they were, but for
  -- the details of the fault and of the request, where these are too long for their buffers.
  pub status_round_trip :
      (seq : ℕ) (s : ControlStatus F) (x : FaultStatus F)
      → can_encode_status s x ≡ true
      → (send_status seq s x ≡ some (status_packet seq s x))
        × (recv_status (status_packet seq s x)
            ≡ some (
              record s {
                policy_switch = record s.policy_switch {
                  detail = detail_for_packet s.policy_switch.detail;
                };
              },
              record x { detail = detail_for_packet x.detail },
            ))
  status_round_trip seq s x h =
      let (p, z) = policy_fits s x h in
      let (i, c, q) = inner_parts s x h in
      let (a, az) = action_fits s.interaction i in
      let same = packet-over seq s x h in
      let v = filled-valid seq s x h in
      (
        send_lem seq s x h (subst (λ y. valid_control_status_packet y ≡ true) (sym same) v),
        subst
            (λ y.
              recv_status y
              ≡ some (
                record s {
                  policy_switch = record s.policy_switch {
                    detail = detail_for_packet s.policy_switch.detail;
                  };
                },
                record x { detail = detail_for_packet x.detail },
              ))
            (sym same)
            (over-recv seq s (record x { detail = detail_for_packet x.detail }) _ _ _ _ v
                (until_nul-fill policy_name_length s.active_policy p z)
                (until_nul-fill interaction_name_length s.interaction.action a az)
                (fault_round_trip x q)
              ∙ ap
                  (λ y. some (
                    record s { policy_switch = y },
                    record x { detail = detail_for_packet x.detail },
                  ))
                  (policy_switch_round_trip s.policy_switch c).0),
      )
