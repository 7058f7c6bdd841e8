-- ===== src/Transport/Command.antt =====
-- src/transport/transport_executor/transport_packet.h: `HmiCmdPacket`, and transport_udp_impl.cpp:
-- `SendCommandV2` and `RecvCommandV2` over a packet that arrives as it was sent.
use humanoid_common.Prelude.{
  ℕ, ◌<◌, ◌≡◌, refl, Bool, true, false, ◌&&◌, ◌||◌, not, Option, some, none, Text, ℤ, is_empty,
  has_nul, until_nul, length, ltb, leb, ◌==◌, arith, if◌then◌else◌, subst, sym,
}
use humanoid_common.Floats.{Float}
use humanoid_common.RobotBase.{Command, InteractionRequest}
use humanoid_common.RobotBase.Operation
use humanoid_common.Transport.Buffer.{
  policy_name_length, interaction_name_length, fill, copy, copy_lem, until_nul-fill, until_nul-fits,
  has_nul-fill,
}
use humanoid_common.Transport.Header.{
  PacketHeader, hmi_cmd, next_header, valid_header, valid_command_key, valid_operation,
}

pub record HmiCmdPacket (F : Type 0) : Type 0 where
  pub header : PacketHeader
  pub key : ℤ
  pub vx : F
  pub vy : F
  pub wz : F
  pub acknowledge_fault_sequence : ℕ
  pub switch_policy : Text
  pub policy_request_sequence : ℕ
  pub interaction_sequence : ℕ
  pub interaction_operation : ℕ
  pub interaction_action : Text

-- `CanEncodeInteractionRequest`.
unfoldable pub can_encode_interaction_request : InteractionRequest → Bool
can_encode_interaction_request r =
    if not (valid_operation r.operation)
      || (leb interaction_name_length (length r.action) || has_nul r.action)
    then false
    else if r.operation == Operation.start
    then not (r.sequence == 0) && not (is_empty r.action)
    else if r.operation == Operation.cancel
    then not (r.sequence == 0) && is_empty r.action
    else is_empty r.action

module _ {F : Type 0} ⦃f : Float F⦄ where
  -- `CanEncodeCommand`.
  unfoldable pub can_encode_command : Command F → Bool
  unfolding can_encode_interaction_request
  can_encode_command c =
      valid_command_key c.key
      && (f.is_finite c.vx
          && (f.is_finite c.vy
              && (f.is_finite c.wz
                  && (ltb (length c.switch_policy) policy_name_length
                      && (not (has_nul c.switch_policy)
                          && can_encode_interaction_request c.interaction)))))

  abbrev pub packet_interaction : HmiCmdPacket F → InteractionRequest
  packet_interaction p = record {
    sequence = p.interaction_sequence;
    operation = p.interaction_operation;
    action = until_nul p.interaction_action;
  }

  -- `ValidHmiCmdPacket`.
  unfoldable pub valid_hmi_cmd_packet : HmiCmdPacket F → Bool
  unfolding can_encode_interaction_request
  valid_hmi_cmd_packet p =
      valid_header p.header hmi_cmd
      && (valid_command_key p.key
          && (f.is_finite p.vx
              && (f.is_finite p.vy
                  && (f.is_finite p.wz
                      && (has_nul p.switch_policy
                          && (valid_operation p.interaction_operation
                              && (has_nul p.interaction_action
                                  && can_encode_interaction_request (packet_interaction p))))))))

  -- What `SendCommandV2` writes into the packet.
  abbrev pub command_packet : ℕ → ℕ → Command F → HmiCmdPacket F
  command_packet seq acknowledge c = record {
    header = next_header hmi_cmd seq;
    key = c.key;
    vx = c.vx;
    vy = c.vy;
    wz = c.wz;
    acknowledge_fault_sequence = acknowledge;
    switch_policy = copy policy_name_length c.switch_policy;
    policy_request_sequence = c.policy_request_sequence;
    interaction_sequence = c.interaction.sequence;
    interaction_operation = c.interaction.operation;
    interaction_action = copy interaction_name_length c.interaction.action;
  }

  -- `SendCommandV2` up to the socket: the packet that it sends, if it sends one.
  unfoldable pub send_command : ℕ → ℕ → Command F → Option (HmiCmdPacket F)
  unfolding can_encode_command valid_hmi_cmd_packet
  send_command seq acknowledge c =
      if not (can_encode_command c)
      then none
      else if not (valid_hmi_cmd_packet (command_packet seq acknowledge c))
      then none
      else some (command_packet seq acknowledge c)

  -- `RecvCommandV2` on a packet of the right size.
  unfoldable pub recv_command : HmiCmdPacket F → Option (Command F × ℕ)
  unfolding valid_hmi_cmd_packet
  recv_command p =
      if not (valid_hmi_cmd_packet p)
      then none
      else some (
        record {
          key = p.key;
          vx = p.vx;
          vy = p.vy;
          wz = p.wz;
          switch_policy = until_nul p.switch_policy;
          policy_request_sequence = p.policy_request_sequence;
          interaction = packet_interaction p;
        },
        p.acknowledge_fault_sequence,
      )

  -- The packet over any two buffers.
  abbrev over : ℕ → ℕ → Command F → Text → Text → HmiCmdPacket F
  over seq acknowledge c policy action = record (command_packet seq acknowledge c) {
    switch_policy = policy;
    interaction_action = action;
  }

  fits :
      (c : Command F)
      → can_encode_command c ≡ true
      → (length c.switch_policy < policy_name_length)
        × (has_nul c.switch_policy ≡ false)
        × (length c.interaction.action < interaction_name_length)
        × (has_nul c.interaction.action ≡ false)
  unfolding can_encode_command can_encode_interaction_request
  fits c h = ground (arith, h)

  over-valid :
      (seq acknowledge : ℕ) (c : Command F) (policy action : Text)
      → can_encode_command c ≡ true
      → has_nul policy ≡ true
      → has_nul action ≡ true
      → until_nul action ≡ c.interaction.action
      → valid_hmi_cmd_packet (over seq acknowledge c policy action) ≡ true
  unfolding can_encode_command valid_hmi_cmd_packet
  over-valid seq acknowledge c policy action h p a e = rw e (ground (arith, h, p, a))

  over-recv :
      (seq acknowledge : ℕ) (c : Command F) (policy action : Text)
      → valid_hmi_cmd_packet (over seq acknowledge c policy action) ≡ true
      → until_nul policy ≡ c.switch_policy
      → until_nul action ≡ c.interaction.action
      → recv_command (over seq acknowledge c policy action) ≡ some (c, acknowledge)
  unfolding recv_command
  over-recv seq acknowledge c policy action h p e = rw (h, p, e) refl

  packet-over :
      (seq acknowledge : ℕ) (c : Command F)
      → can_encode_command c ≡ true
      → command_packet seq acknowledge c
        ≡ over seq acknowledge c
            (fill policy_name_length c.switch_policy)
            (fill interaction_name_length c.interaction.action)
  packet-over seq acknowledge c h =
      let (p, z, a, az) = fits c h in
      rw
        (
          copy_lem policy_name_length c.switch_policy p z,
          copy_lem interaction_name_length c.interaction.action a az,
        )
        refl

  filled-valid :
      (seq acknowledge : ℕ) (c : Command F)
      → can_encode_command c ≡ true
      → valid_hmi_cmd_packet (
          over seq acknowledge c
            (fill policy_name_length c.switch_policy)
            (fill interaction_name_length c.interaction.action))
        ≡ true
  filled-valid seq acknowledge c h =
      let (p, z, a, az) = fits c h in
      over-valid seq acknowledge c (fill policy_name_length c.switch_policy)
        (fill interaction_name_length c.interaction.action) h
        (has_nul-fill policy_name_length c.switch_policy p)
        (has_nul-fill interaction_name_length c.interaction.action a)
        (until_nul-fill interaction_name_length c.interaction.action a az)

  send_lem :
      (seq acknowledge : ℕ) (c : Command F)
      → can_encode_command c ≡ true
      → valid_hmi_cmd_packet (command_packet seq acknowledge c) ≡ true
      → send_command seq acknowledge c ≡ some (command_packet seq acknowledge c)
  unfolding send_command
  send_lem seq acknowledge c h v = rw (h, v) refl

  -- A command that may be encoded is sent, and what the receiver reads of its packet is the command itself and
  -- the acknowledged number.
  pub command_round_trip :
      (seq acknowledge : ℕ) (c : Command F)
      → can_encode_command c ≡ true
      → (send_command seq acknowledge c ≡ some (command_packet seq acknowledge c))
        × (recv_command (command_packet seq acknowledge c) ≡ some (c, acknowledge))
  command_round_trip seq acknowledge c h =
      let (p, z, a, az) = fits c h in
      let same = packet-over seq acknowledge c h in
      (
        send_lem seq acknowledge c h (
            subst (λ q. valid_hmi_cmd_packet q ≡ true) (sym same)
              (filled-valid seq acknowledge c h)),
        subst (λ q. recv_command q ≡ some (c, acknowledge)) (sym same)
            (over-recv seq acknowledge c _ _ (filled-valid seq acknowledge c h)
              (until_nul-fill policy_name_length c.switch_policy p z)
              (until_nul-fill interaction_name_length c.interaction.action a az)),
      )

  -- Whatever a receiver accepts from the wire is a command that a sender could have sent.
  pub received_can_be_encoded :
      (p : HmiCmdPacket F) (c : Command F) (acknowledge : ℕ)
      → length p.switch_policy ≡ policy_name_length
      → recv_command p ≡ some (c, acknowledge)
      → can_encode_command c ≡ true
  unfolding recv_command valid_hmi_cmd_packet can_encode_command
  received_can_be_encoded p c acknowledge l e = ground (arith, l, e, until_nul-fits p.switch_policy)
