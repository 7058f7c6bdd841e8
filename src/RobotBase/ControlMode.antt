-- ===== src/RobotBase/ControlMode.antt =====
-- include/robot_base.h, `ControlMode`: the values of its `int8_t`.
use humanoid_common.Prelude.{ℤ, pos}

abbrev pub power_off : ℤ
power_off = pos 0

abbrev pub damp : ℤ
damp = pos 1

abbrev pub zero : ℤ
zero = pos 2

abbrev pub rl : ℤ
rl = pos 3

abbrev pub safety : ℤ
safety = pos 4

abbrev pub home : ℤ
home = pos 5

abbrev pub trajectory : ℤ
trajectory = pos 6
