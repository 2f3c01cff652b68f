-- ===== src/Lib.antt =====
-- NX-MemTest: a memory tester for the Nintendo Switch. It splits the memory that the loader hands
-- over into a small heap for the C runtime and the arena under test, shares the words of the arena
-- out to up to four workers, and lets each of them write patterns into its slice and read them back,
-- phase by phase and pass by pass. What differs goes into reports, which are merged into the result.
--
-- The parts, and the files that model them:
-- - Types: include/nxmt/types.h, the modes, phases and statuses.
-- - Arena: source/core/arena.c and include/nxmt/arena.h. Range is nxmt_arena_from_range and the
--   alignment functions; Select is nxmt_select_system_memory_total and its callers and
--   nxmt_runtime_heap_reserve; Percent is nxmt_percent_milli with its double-and-add loop
--   scaled_remainder_term; Split is nxmt_split_block_start and nxmt_split_block_size.
-- - Patterns: source/core/patterns.c. expected_value is the reference for all phases.
-- - Report: source/core/report.c and include/nxmt/report.h. The abstract view of a report is the
--   sequence of mismatches recorded in it (Report/Summary).
-- - Runner: source/core/runner.c and include/nxmt/runner.h. Runner/Memory is the memory by word
--   address and the NEON vectors; Runner/Write is nxmt_write_chunk, a function for each phase;
--   Runner/Verify is nxmt_verify_chunk; Runner/Chunks is the phases of a mode, nxmt_write_phase and
--   nxmt_verify_phase; Runner/Pass is nxmt_runner_run_pass, run to its end; Runner/Steps is the same
--   pass a step at a time.
-- - Platform: source/nx/platform_nx.c, __libnx_initheap, nxmt_platform_get_memory and
--   nxmt_platform_core_mask.
-- - Workers: source/nx/main.c around the workers: init_worker_context, nxmt_worker_entry,
--   combine_worker_status, merge_worker_context, collect_worker_cpu_map, and the parts of main that
--   start the threads, decide on another pass and settle the final status. Together is the workers of
--   a pass on one memory, their steps in any order.
-- - TestRun: source/nx/main.c, one run: the passes with their timer and their flags, the waiting
--   loop, the fallback to a single worker, and the status of the whole.
-- - GpuPump: source/nx/gpu_pump.c. GpuPump has nxmt_gpu_pump_start, the layout of its storage,
--   pump_fill_src_pattern and the counting loop; Session is what pump_setup, pump_load_shader and
--   pump_teardown create and destroy, and pump_thread_entry.
-- - Menu: source/nx/main.c, the choices before a run: tui_choose_mode, tui_choose_duration, the loop
--   around both in main, and what main gives of the arena and the workers to the GPU pump.
-- - Screen: source/nx/main.c, visible_width; Rows is fill_chars and the rows of the boxes, tui_section_top
--   and the functions below it, and draw_header; Sections is draw_memory_section,
--   draw_run_config_section and draw_results_section; Menus is the boxes before a run,
--   tui_draw_mode_menu, the box of tui_choose_duration and the like.
-- - ReportText: source/nx/main.c, the text in the log file, format_report.
-- - Base: machine words, the loop combinator, threads by turns (Schedule), texts and the numbers that
--   printf prints (Text, Digits), and lemmas on xor, or, masks, lists and loops.
--
-- How the code is modelled. A number of C is a natural number with its wrap-around written out; the
-- functions that take 64-bit arguments have theorems that say so. A pointer is an address, and a
-- null pointer is `none` (0 in Platform). Both sides of `#if NXMT_HAS_NEON` are modelled, and the
-- Boolean `neon` chooses. The memory is a function from word addresses to words; the lowest byte of
-- a word comes first. The code stores and loads words, and bytes in the narrow phase only. The
-- memory under test is more than what the code stores: the parameter `ram` is what it holds in a
-- phase when it is read back, of what was written. The stop flag, which other threads set, is what
-- each read of it in turn gives. The progress counter is a number modulo 2 ^ 64.
--
-- Loops. `for (; k + w <= n; k += w)` is the combinator loop_by of Base/Loop, which runs once for
-- each whole step. Recursion on fuel stands for the other loops: 65 rounds for the digits of a
-- 64-bit scale, the number of words for the chunk loops and the stream phase, since each round
-- handles one word at least; one round for each input and one more for the loop around the menus,
-- since each round reads one input at least; 20 decimal and 16 hexadecimal digits of a
-- 64-bit number. The theorems on these functions state their results
-- outright, so they also say that the fuel is enough. The menus themselves recurse on the inputs.
--
-- Threads. A worker is a machine whose step is one read of the stop flag with the chunk behind it,
-- or the end of a phase, so that a chunk is written or read as a whole; what it keeps to itself is
-- a record (Local), and the memory is shared. A run of several workers is a list of their numbers,
-- each one turn. TestRun runs the workers of a pass one after the other: their
-- slices are apart, and Workers/Together is about their steps in any order.
--
-- Not modelled: the progress display and the cursor of the screen, the GPU benchmark, the CPU filler,
-- and the functions of the platform that only do I/O. System calls (svcSetHeapSize, svcGetInfo,
-- threadCreate, threadStart) and the deko3d library are parameters.
pub mod Base
pub mod Types
pub mod Arena
pub mod Report
pub mod Patterns
pub mod Runner
pub mod Platform
pub mod Workers
pub mod Menu
pub mod Screen
pub mod TestRun
pub mod GpuPump
pub mod ReportText
