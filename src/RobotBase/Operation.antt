-- ===== src/RobotBase/Operation.antt =====
-- include/robot_base.h, `InteractionRequest::Operation`: the values of its `uint8_t`.
use humanoid_common.Prelude.{ℕ}

abbrev pub unset : ℕ
unset = 0

abbrev pub start : ℕ
start = 1

abbrev pub cancel : ℕ
cancel = 2
