-- ===== src/Lib.antt =====
-- krepe records the launch of a Kokkos kernel in an HDF5 file and launches it again from that
-- file. This library models its three parts, the file between them, and the compiler
-- plugins.
--
-- Capture, src/krepe/capture: the tool that Kokkos calls.
--   * Capture/Tracker: AllocationTracker of allocation_tracker.cpp, the live allocations of each memory
--     space and the pointers of the registered views. Each method is a function on the state.
--   * Capture/Numbers and Capture/Options: parse_positive_uint64 and the selection of the kernel
--     to dump, from the command line (kokkos_hooks.cpp).
--   * Capture/DataSize: the size of the data of an allocation and the allocation hooks
--     (kokkos_hooks.cpp). What malloc_usable_size, CUDA and HIP answer is the record Runtime.
--   * Capture/Kernels: begin_kernel, end_kernel and the calls of an instrumented program on the
--     state of the hooks (kokkos_hooks.cpp). The writer of the dump and the fence of Kokkos are the record
--     Tools over a world; Kernels/Exported has the functions that Kokkos calls; Kernels/Selection runs
--     sequences of events.
--   * Capture/MemoryCopy: copy_allocation_bytes (memory_copy.cpp); the copies are the record Memory.
--   * Capture/Policy and Capture/Dump: the policy that is registered, the names of files and groups, the
--     text of a pointer, the group of the policy, and the whole file of a dump (view_dump.hpp,
--     view_dump.cpp).
-- Extract, src/krepe/extract: what an instrumented program calls.
--   * Extract/Bounds describes a Kokkos policy as register_bounds of kernel_extractor.hpp does.
--   * Extract/Functions: the table of the tool's functions, which dlsym fills on the first call, and
--     the calls through it (kernel_extractor.cpp). Functions/Refines has the specification: a
--     tool that is there, or one that is not.
--   * Extract/Launch: replay_functor and parallel_for of kernel_extractor.hpp on the table and the
--     state of the tool; the record Kokkos has what a launch does.
-- Replay, src/krepe/replay:
--   * Replay/Policy: the reader of the policy (kernel_replayer.cpp).
--   * Replay/Visitor: ParallelForVisitor of kernel_replayer.hpp; a visit comes to a launch.
--   * Replay/Space and Replay/Regions: memory_space_type.hpp, get_allocation_address of allocation.hpp and
--     compute_allocations of kernel_replayer.cpp: the ranges of memory that a replay reserves.
--   * Replay/CommandLine: find_flag_argument and remove_cli_args (kernel_replayer.cpp).
--   * Replay/Machine: the mapped memory of the host (host_allocation.hpp), of a device
--     (cuda_allocation.hpp, hip_allocation.hpp) and the objects that own it (allocation.hpp). What the
--     operating system and the driver answer are the records Os and Driver.
--   * Replay/Hex and Replay/Views: the addresses and the views of a dump (kernel_replayer.cpp).
--   * Replay/Guard: ScopeGuard of kernel_replayer.cpp with the globals that it fills. Guard/Construct is
--     the constructor, Guard/Lookup what the replay asks for, Guard/Functor replay_functor and
--     parallel_for of kernel_replayer.hpp. Guard/Frame says which steps leave what alone; the other
--     children prove what the constructor leaves.
-- Common, src/krepe/common/hdf5_utils.hpp: Common/ScopedHandle is the handle that closes itself;
--   Common/Hdf5 is the interface to HDF5. Common/ExtendedLambda: the pointer that an extended lambda of
--   nvcc ends with (extended_lambda_utils.hpp).
-- Plugins, src/krepe/compiler_plugins: what finds the views of a functor when a program is compiled.
--   * Plugins/Syntax: what the compilers answer for the classes of a program, a parameter. An expression
--     is the path from the functor to a part, and a statement that is added is the call that it makes.
--   * Plugins/Clang: FunctorVisitor of clang.cpp; Clang/Patch has patch_replay_functor and
--     HandleTopLevelDecl.
--   * Plugins/Gcc: the functions visit of gcc.cpp; Gcc/Patch has ast_callback.
--   * Plugins/GccVersion: plugin_init of gcc.cpp.
--   * Plugins/Walk is the reference that both visitors are compared with: the parts of a class in order, views
--     added and other classes entered. Walk/Exact, Ends, Same and Cycles prove what it finds and when it
--     ends; Plugins/Agree compares the two plugins; Plugins/Run runs the new body on the table of Extract.
-- RoundTrip connects them: what Extract describes and Capture writes, Replay reads, restores and
--   launches.
-- Base has the shared types, tests and lemmas; Tests has runs at concrete inputs.
--
-- HDF5 is a parameter: the record Hdf5 has its calls, and IsHdf5 says that what was written to a slot is
-- read there and that other slots stay. Kokkos is a parameter too: the names of its execution
-- spaces, what its policies answer (Extract) and whether the functor can be called (Replay/Visitor).
-- Numbers are natural numbers with the wrap-around of 64 bits written out, and signed integers. A
-- call of a tracker's method or of a hook is one step; their order is a list of events.
-- The loops are structural recursions. The loops over the command line run on the number of rounds
-- that the source bounds them by, argc - 1 and argc - n - pos, so no round is missed; a pointer is
-- printed in 16 rounds, one for each digit of 64 bits. A visit of a plugin runs on fuel, one unit for each
-- class on the way to a part: more than the depth to which the classes are nested is enough for that of gcc; that of
-- clang follows references too, which may go round in circles. A read that C++ leaves undefined ends a
-- model's run with an error or with none.
--
-- Not modelled: log lines; hdl_host_lambda_size of extended_lambda_utils.hpp, which nvcc computes from
-- the types of the captures (the bytes of the host lambda are a parameter); the making of the buffers of the reference outputs, which does
-- not fail in the model; the views of Kokkos that compare_views builds; the WorkTag and the
-- LaunchBounds of a policy, which the program does not restore; what an exception in the
-- reader of the policy leaves of the global policy; of the plugins, the source locations and types of
-- the nodes that they build, the marks of referenced functions and the registration with clang; the
-- umbrella headers.
pub mod Base
pub mod Plugins
pub mod Common
pub mod Capture
pub mod Replay
pub mod Extract
pub mod RoundTrip
pub mod Tests
