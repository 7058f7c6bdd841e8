-- ===== src/Lib.antt =====
-- Verification of the control layer of a humanoid robot.
--
-- The program. One process reads the robot's sensors and runs `BehaviorManagerClass` once per control
-- period; operators send it commands and read its status through a transport. The manager watches the
-- sensors, latches faults, prepares and exchanges policies in the background, and steps a state machine
-- (POWER_OFF, DAMP, HOME, ZERO, RL, TRAJECTORY, SAFETY) whose current state writes the joint targets.
--
-- The parts, and the files that model them.
--   RobotBase: include/robot_base.h and src/robot_base/robot_base.cpp. The records that all parts share.
--     Enums of a fixed width are numbers, whose named values are modules (RobotBase/FaultSource and others).
--   Behavior/State, Behavior/StateName: src/behavior_manager/behavior_state.h, include/behavior_manager.h.
--     The virtual methods of `State` are the record `StateClass`; what `sensor_`, `command_`, `output_` and
--     the fault pointer reach is the record `Shared`, which each method takes and returns.
--   Behavior/Fsm: src/behavior_manager/behavior_fsm.cpp. `Fsm/Defs` has one function per method of `FSM`,
--     over any `StateClass`. `Fsm/Wellformed`, `Operations`, `Stepping` and `Frame` hold its proofs.
--   Behavior/States: src/behavior_manager/states/state_power_off.cpp, state_damp.cpp, state_home.cpp,
--     state_zero.cpp, state_safety.cpp. `States/Object` is the dispatch over all of them.
--   Behavior/Trajectory: `Player` of src/behavior_manager/joint_trajectory.cpp, from its loaded clips on.
--     `Trajectory/Player` has its calls, `Reads`, `Phases`, `Joints` and `Sparing` its proofs; `StateTrajectory`
--     is the state of states/state_trajectory.cpp around it, which `Holding` is about.
--   Behavior/Manager: src/behavior_manager/behavior_manager.cpp. `Manager/Defs` is the data of `Impl`;
--     `Manager/Faults` goes from `EvaluateReportedSensorFault` to `AcknowledgeFault`; `Manager/Policies` from
--     `RequestedPolicyReady` to `PollPolicyPreparation`; `Manager/Cycle` is `Step`, as the stages that it
--     makes in order; `Manager/Requests` has the setters and getters around `SetCommand`.
--   Transport: src/transport/transport_executor/transport_packet.h and transport_udp_impl.cpp. A packet is a
--     record with a list of bytes for each text buffer; `Transport/Buffer` has the texts, and `Command` and
--     `Status` join the sender's and the receiver's half of `SendCommandV2`, `RecvCommandV2`, `SendStatusV2`
--     and `RecvStatusV2`. `Transport/Ring` is the ring of slots of src/transport/shm/shm_transport.cpp.
--   Operator: src/operator_service/service/service.cpp, the class `Service`, with include/operator_types.h.
--     `Operator/Data` is its state; `Sessions`, `Input`, `Tick`, `Feedback` and `Views` have its methods, and
--     `Requests` has `Handle`: `Access` and `Control` and `Actions` each some of its requests, `Handle` the
--     checks before them. `Events` is any sequence of calls. `Driving` and `Ownership` are the proofs of what
--     every call keeps, over the rules of `Stability` (requests) and `Upkeep` (time and feedback). One reading
--     of the clock stands for all that one call makes.
--   Runtime: src/runtime/common, the helpers that the processes share, and status_reporting.h of
--     src/runtime/control. `SampleWorker` is a step relation: each critical section of one of its two threads
--     is one step. `CommandLimits`, `Timing`, `Watch` and `StatusReporting` have one function per method.
--   Prelude holds the helpers and lemmas on lists, texts, numbers and tests; Floats the arithmetic.
--
-- How the code is read. The numbers of `double` and `float` are one type F with the operations of the record
-- `Float`, a parameter of every definition. Laws are named only where a theorem needs them: of the order and
-- of rounding to `float` in `IsOrdered` and `IsSigned`, of rounding up and down in `IsRounded` and
-- `IsFloored`, of time that passes in `IsAdvancing`; `Milli` (thousandths) is an instance on which the
-- examples run. `uint64_t` counters wrap at 2 ^ 64. Texts are their bytes. Loops are structural recursion on
-- the list or the number that they run over; `std::to_string` alone runs on fuel, 20 for the digits of a
-- number below 2 ^ 64. The world enters a control period through the record `Surroundings`: the time, what the
-- background preparation has come to, and whether a new one can start.
--
-- Not modelled. `LoadConfig` and the YAML reader (file input through a library): their result is the record
-- `Settings`; in the same way the clips of recorded motions are loaded already. The state RL and the policies'
-- networks, which enter the manager as objects of a type R together with TRAJECTORY (a method in which its
-- player throws is an error in `StateTrajectory`, and the manager's have none), with a `StateClass`. The
-- operating system's sockets and shared memory, the operator's web server and JSON coding (a reading of a
-- field is the record `Json`), the processes' main loops, the device drivers, the clients, console and log
-- output.
pub mod Prelude
pub mod Floats
pub mod RobotBase
pub mod Behavior
pub mod Operator
pub mod Runtime
pub mod Transport
