-- ===== src/Programs.antt =====
-- The executables: src/main.cpp, src/client_main.cpp, src/benchmark_main.cpp and
-- src/server_main.cpp.
pub mod Demo
pub mod DemoLaws
pub mod Shell
pub mod Bench
pub mod BenchLaws
pub mod ShellLaws
pub mod Daemon
pub mod DaemonLaws
pub mod SignalLaws
pub mod Names
pub mod Joint
pub mod JointLaws
pub mod Threads
pub mod JointReach
pub mod JointCalls
pub mod JointEnd
pub mod BenchMain
pub mod JointResult
pub mod Whole
pub mod Service
