-- ===== src/RobotBase/Names.antt =====
-- src/robot_base/robot_base.cpp: `FaultSourceName` and `FaultCodeName`, the names of faults in messages.
use humanoid_common.Prelude.{ℕ, ℤ, Text, codes, ◌==◌, int_eq, if◌then◌else◌}
use humanoid_common.RobotBase.FaultSource
use humanoid_common.RobotBase.FaultCode

unfoldable pub fault_source_name : ℕ → Text
fault_source_name s =
    if s == FaultSource.unset
    then codes "none"
    else if s == FaultSource.transport
    then codes "transport"
    else if s == FaultSource.driver
    then codes "driver"
    else if s == FaultSource.whole_body
    then codes "whole_body"
    else if s == FaultSource.motor
    then codes "motor"
    else if s == FaultSource.imu
    then codes "imu"
    else if s == FaultSource.control
    then codes "control"
    else if s == FaultSource.policy
    then codes "policy"
    else if s == FaultSource.safety_monitor
    then codes "safety_monitor"
    else codes "unknown"

unfoldable pub fault_code_name : ℤ → Text
fault_code_name c =
    if int_eq c FaultCode.unset
    then codes "none"
    else if int_eq c FaultCode.state_timeout
    then codes "state_timeout"
    else if int_eq c FaultCode.feedback_timeout
    then codes "feedback_timeout"
    else if int_eq c FaultCode.device_error
    then codes "device_error"
    else if int_eq c FaultCode.command_rejected
    then codes "command_rejected"
    else if int_eq c FaultCode.command_timeout
    then codes "command_timeout"
    else if int_eq c FaultCode.inference_timeout
    then codes "inference_timeout"
    else if int_eq c FaultCode.invalid_data
    then codes "invalid_data"
    else if int_eq c FaultCode.limit_exceeded
    then codes "limit_exceeded"
    else if int_eq c FaultCode.internal_error
    then codes "internal_error"
    else codes "unknown"
