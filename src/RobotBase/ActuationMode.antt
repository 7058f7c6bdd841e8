-- ===== src/RobotBase/ActuationMode.antt =====
-- include/robot_base.h, `ActuationMode`: the values of its `int8_t`.
use humanoid_common.Prelude.{ℤ, pos}

abbrev pub hybrid : ℤ
hybrid = pos 0

abbrev pub position : ℤ
position = pos 1

abbrev pub velocity : ℤ
velocity = pos 2

abbrev pub torque : ℤ
torque = pos 3
