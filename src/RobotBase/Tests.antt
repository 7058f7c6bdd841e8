-- ===== src/RobotBase/Tests.antt =====
-- A robot of two joints.
use humanoid_common.Prelude.{◌≡◌, refl, pos, ok}
use humanoid_common.Floats.{Milli, milli}
use humanoid_common.RobotBase.Data.{RobotData, empty_data, init_joint_vectors, create}

abbrev two_joints : RobotData Milli
two_joints = record empty_data { num_dof = pos 2 }

made : create (pos 2) ≡ ok (init_joint_vectors two_joints)
unfolding create
made = refl
