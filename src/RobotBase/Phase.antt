-- ===== src/RobotBase/Phase.antt =====
-- include/robot_base.h, `InteractionStatus::Phase`: the values of its `uint8_t`.
use humanoid_common.Prelude.{ℕ}

abbrev pub idle : ℕ
idle = 0

abbrev pub blend_in : ℕ
blend_in = 1

abbrev pub playing : ℕ
playing = 2

abbrev pub holding : ℕ
holding = 3

abbrev pub blend_out : ℕ
blend_out = 4

abbrev pub finished : ℕ
finished = 5

abbrev pub rejected : ℕ
rejected = 6
