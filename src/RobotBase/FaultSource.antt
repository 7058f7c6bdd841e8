-- ===== src/RobotBase/FaultSource.antt =====
-- include/robot_base.h, `FaultSource`: the values of its `uint8_t`.
use humanoid_common.Prelude.{ℕ}

abbrev pub unset : ℕ
unset = 0

abbrev pub transport : ℕ
transport = 1

abbrev pub driver : ℕ
driver = 2

abbrev pub whole_body : ℕ
whole_body = 3

abbrev pub motor : ℕ
motor = 4

abbrev pub imu : ℕ
imu = 5

abbrev pub control : ℕ
control = 6

abbrev pub policy : ℕ
policy = 7

abbrev pub safety_monitor : ℕ
safety_monitor = 8
