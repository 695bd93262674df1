-- ===== src/Lib.antt =====
-- Verification library of the ps3-plugins repository: game patches and plugins for the PS3.
--
-- The program has three console plugins and a set of shared parts. The XMB plugin
-- (game_patch_vsh_data) leaves the title id and the version of the started game on disk. The
-- bootloader (game_plugin_bootloader) reads that, parses game_plugins.yml (game_patch/plugins.c)
-- and loads the plugins listed for the game, with the arguments of the game. The patch plugin
-- (game_patch) parses the patch file of the title (game_patch/patch.c), looks up in a file of
-- patch states which patches are enabled, and writes their entries into the game's memory. Both
-- parsers read lines by game_patch/lib/file.c and take them apart by game_patch/my_string.h. To be
-- asked when a game starts, the XMB plugin finds code of the system by its bytes (PatternScan) or by
-- its number (FindExportByName), and sends its calls elsewhere (PatchCall, Detour).
--
-- Files and code:
--   Base: the lists, tests and results that the other modules share.
--   CString: C strings (strstr, isspace, isdigit of game_patch/lv2_stdio.h; strncmp2 of
--     shared/macros.h).
--   Text: game_patch/my_string.h. Line has comments, indentation and trim; Escape has
--     unescape_char and unescape_string; Quoted has parse_quoted_string; Items has
--     parse_string_list, and parse_patch_entry of game_patch/patch.c, which is the same loop.
--   Number: strtoul and its wrappers of game_patch/lv2_stdio.h, string_to_uint of
--     game_patch/patch.c.
--   FileIo: fileReadLine of game_patch/lib/file.c, and the loop of its callers. System has the calls
--     of that file that open, read, write, seek and size a file.
--   Bin2c: bin2c/bin2c.c, the tool that prints a file as an array.
--   Bits: the fields of a word as arithmetic. Hex: hexadecimal digits.
--   ProcessMemory: game_patch_vsh_data/Memory/Memory.cpp.
--   Detour: game_patch_vsh_data/Memory/Detour.hpp and Detour.cpp. Encode has the instructions that
--     are written, Jump the jumps, Relocate the moved instructions, Hook the trampoline, Hook and
--     UnHook, Fnid the tables of exports and imports. PowerPc is no part of the program: it says what
--     the processor does with these instructions.
--   PatchCall: shared/memory.h and shared/my_memory.cpp.
--   Vsh: game_patch_vsh_data/prx.cpp. Scan has PatternScan, Files the files that the plugin
--     keeps, the hook of the start of a game and the notices, RunPatch what the plugin does first.
--   PatchState: the file of patch states of game_patch/patch.c, in its build for tools; Console has
--     the reader of the console plugin, Full is about a file system without room.
--   Plugins: the parser of game_plugins.yml of game_patch/plugins.c.
--   ProgramArgs: program_args of game_patch/plugins.h, append_arg of game_patch/plugins.c and
--     copy_main_args of game_plugin_bootloader/prx.cpp.
--   GamePatchInfo: shared/GamePatchInfo.h and shared/GamePatchInfo.cpp.
--   Bootloader: load_plugin_callback of game_plugin_bootloader/prx.cpp. Startup has check_bytes,
--     parse_load_file and module_start of that file, and load_plugins of game_patch/plugins.c.
--   StringId: shared/stringid.h, and the loop of calculate_patch_hash over several strings.
--   Patch: game_patch/patch.h and game_patch/patch.c. Metadata has the hash and the metadata of a
--     patch, Complete the end of a patch, Line one line, File a whole file, Apply what the
--     callbacks of the console plugin do. Document is a printed patch file and what
--     PARSE_MODE_LOW_MEM does with it; Bounds is about the arrays of the parser in every mode;
--     Run is run_patch, and the start of the plugin in game_patch/prx.cpp.
--   Tests: runs at concrete inputs.
--
-- How code is modelled:
--   - A text is a list of byte codes without its final NUL. A pointer into a text is the rest of
--     the text. A pointer that may be NULL is an Option. The strings of a record are values: the
--     code shares no string between two owners that it changes.
--   - A function that changes a structure takes it and returns it. A callback is a parameter; its
--     `void*` is the value that it takes and returns. A crash on a NULL is `none`.
--   - Widths: size_t, uintptr_t and uint32_t have 32 bits, long has 64. Whether char is signed is a
--     parameter where it matters, in the hash.
--   - A loop runs along its text, or on fuel where it jumps: unescape_string and the lists of items
--     take the length of the text as fuel, fileReadLine the number of its reads, the loop over
--     lines the size of the file; PatternScan the number of the windows of 256 bytes and two more,
--     the search of a table the number of its libraries and one more, the array of bin2c the length
--     of the file and two more.
--   - The memory of a process is a function from addresses to words, at addresses that 4 divides;
--     an address has 32 bits and the null pointer is 0. A write gives the memory that it leaves.
--   - A write of append_arg that an array has no place for is counted in `overruns`, which is no
--     field of the struct.
--   - A line is read whole, however long it is. The buffers of the callers have 1025 bytes, and the
--     code writes behind them where a line is longer.
--
-- Parameters, for code that is not in the repository: the file system (a file is its content, or
-- the answers to its reads), sys_prx_load_module and sys_prx_start_module, and what a started
-- module leaves of the arguments (PrxLoader), the state of a patch where the parser asks for it
-- (Env), the debugger's and HEN's calls on the memory of a process (Syscalls), the files of the
-- XMB plugin (Stdio), the file calls of the system and their constants (Kernel, Constants), what
-- ReadProcessMemory gives to PatternScan, and what lies behind its buffer.
--
-- Not modelled: failed allocations and freeing memory, which keep no state of their own; output on
-- the console; game_patch_vsh_data/Utils/SystemCalls, stubs of system calls in assembly; the
-- threads of the XMB plugin, which sleep and poll (what they do in between is modelled); the
-- templates of Detour.hpp that call a function by its address; vendor/scetool, a program of
-- others; the tools in cmdline-tests; the build files.
pub mod Base
pub mod CString
pub mod Text
pub mod Number
pub mod FileIo
pub mod PatchState
pub mod Plugins
pub mod ProgramArgs
pub mod GamePatchInfo
pub mod Bootloader
pub mod StringId
pub mod Patch
pub mod Bits
pub mod Hex
pub mod ProcessMemory
pub mod Detour
pub mod PatchCall
pub mod Vsh
pub mod Bin2c
pub mod Tests
