-- ===== src/Lib.antt =====
-- eTrace-Diag: the collector that watches a host with eBPF, asks a model whether what it sees is
-- an anomaly, and collects in depth around one.
--
-- The parts. The main loop (src/app.cpp) ticks the phase manager (src/phase_manager.cpp), which
-- asks the anomaly model through a WebSocket (src/model/ws_client.cpp) and switches between the
-- phases BASE and DEEP. In DEEP the collector (src/collect/deep_collector.cpp) reads the flight
-- recorder, a ring that the kernel writes, through map readers (src/collect/map_reader.cpp). The
-- target selector (src/collect/target_selector.cpp) decides which threads the kernel traces. The
-- configuration (include/etrace_diag/config.h, src/config.cpp) reaches all of them.
--
-- Config models `Config` and its parts, `DefaultConfig` as `default_config` and `Sanitize` as
-- `sanitize`, and `ApplyEnvOverrides` as `apply_env_overrides`. Deep models the life cycle of
-- `DeepCollector`: `enter` with the attachment of its programs, `tick`, `finalize` and `exit`.
-- Phase models `PhaseManager`: its members are a record, each method is the function of its name
-- (`EnterDeep` is `enter_deep`, and so on), `apply` and `run` are the calls of the main loop. The
-- collector, the model and the writer are the interface `Parts`, with the laws `DeepLaws`. Ws
-- models `WsClient` on a connected socket: `send_text`, `read_exact`, `read_frame` and
-- `recv_text`, over the pieces in which the network delivers bytes. Recorder models
-- `DecodeSnapshot`, `AddSnap`, `MergePerCpu`, `ExtractPre`, `DrainPost` and `PercentileUs`;
-- `Reader` is what the lookups find while the kernel goes on writing. Selector models `Probe` from
-- the numbers that the system gives, `ReadTid`, `ComputeScore`, `ApplyPinned` and `Evaluate`, whose
-- steps are the functions that `evaluate` puts together; `follow_all` is the selector with the
-- kernel's map `targets` over the evaluations of the main loop. MapReader models `MapSlice` over the calls of libbpf,
-- which are the interface `KernelMap`, with what bpf(2) says of a hash map as `MapLaws`. Prelude
-- holds what these share, and Tests the inputs on which the theorems apply.
--
-- Kernel models the programs of bpf/etrace.bpf.c. `rec_commit` is a step relation, since every
-- processor runs it while the others and the reader do: `System` is the ring with the calls under
-- way, `Step` one step of one call, and `view` is the `Reader` of a state. A hash map is the list of
-- its entries with its capacity, `Cpu` the maps as one processor finds them, and each program is a
-- function of its name; what a helper's uninitialised local holds is the field `locals`.
-- `dump_oom_events` is `DumpOomEvents` of the main loop.
--
-- App models the loop of `RunCollector`: `iterate` is one iteration, in steps in the order of the
-- source, `run_loop` the loop over what each iteration finds, `run_collector` the loop with the
-- shutdown. The phase manager is that of Phase, around the collector of Deep (`collector_parts`); the
-- readers, the writer and the selector are the interface `Services`, with `IntervalLaws` for the
-- interval of the recorder's producer. `build_top_tasks` is
-- `BuildTopTasks`. ProcessTable models
-- `ReadProcessTable`, of which `read_lines` joins the pieces and `apply_line` handles a line.
--
-- Numbers are natural numbers with the wrap-around of the source's words written out. `double` is
-- the parameter `Float`, and `FloatOrder` what is used of its order. `std::sort` is a parameter.
-- An unordered map is the list of its entries; where the order of iteration can change the result
-- it is a parameter.
--
-- The loops are structural, but for three. `RecvText` runs on fuel: more fuel than there are
-- control frames before the text is enough. `ForEach` runs on fuel: one round more than the map
-- has entries is enough. `Drain` and `Wipe` stop after 8192 rounds, as in the source.
--
-- Not modelled: logging, JSON, SQL and file output, the reading of /proc and /sys, the calls of
-- libbpf, the kernel's programs for sockets, files, profiles and reclaim, the handshake of the
-- WebSocket, the start of the main loop, and what the drains of processes, GPU and maps collect in
-- DEEP.
pub mod Prelude
pub mod Config
pub mod Phase
pub mod Ws
pub mod Recorder
pub mod Selector
pub mod MapReader
pub mod Deep
pub mod Kernel
pub mod App
pub mod ProcessTable
pub mod Tests
