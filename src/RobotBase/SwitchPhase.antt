-- ===== src/RobotBase/SwitchPhase.antt =====
-- include/robot_base.h, `PolicySwitchStatus::Phase`: the values of its `uint8_t`.
use humanoid_common.Prelude.{ℕ}

abbrev pub idle : ℕ
idle = 0

abbrev pub preparing : ℕ
preparing = 1

abbrev pub ready : ℕ
ready = 2

abbrev pub failed : ℕ
failed = 3

abbrev pub rejected : ℕ
rejected = 4
