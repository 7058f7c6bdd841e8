-- ===== src/RobotBase/FaultCode.antt =====
-- include/robot_base.h, `FaultCode`: the values of its `int16_t`.
use humanoid_common.Prelude.{ℤ, pos}

abbrev pub unset : ℤ
unset = pos 0

abbrev pub state_timeout : ℤ
state_timeout = pos 1

abbrev pub feedback_timeout : ℤ
feedback_timeout = pos 2

abbrev pub device_error : ℤ
device_error = pos 3

abbrev pub command_rejected : ℤ
command_rejected = pos 4

abbrev pub command_timeout : ℤ
command_timeout = pos 5

abbrev pub inference_timeout : ℤ
inference_timeout = pos 6

abbrev pub invalid_data : ℤ
invalid_data = pos 7

abbrev pub limit_exceeded : ℤ
limit_exceeded = pos 8

abbrev pub internal_error : ℤ
internal_error = pos 9
