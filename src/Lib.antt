-- ===== src/Lib.antt =====
-- ESZ-OS: a hobby kernel for x86-64 in C++. This library models the parts of kernel/ that keep
-- state or compute, and proves what makes them correct.
--
-- How the parts go together. kernel/kernel.cpp starts them in order. The physical memory manager
-- reads the boot loader's memory map and hands out pages of 4096 bytes by a bitmap. Paging builds
-- the four levels of page tables from such pages. The heap lives in a range of mapped pages and
-- serves malloc and free, from which strings and all buffers come. The keyboard gives scancodes,
-- the key tables turn them into key codes, and the terminal edits its input line with them, keeps
-- a history of commands and runs them. The PCI scan finds the disk controller, whose driver reads
-- and writes sectors through pages of the memory manager; storage reads the partition table with
-- it, chooses a partition, and FAT32 finds and reads files there.
--
-- Which file models what:
--   Base      numbers, lists and buffers that all parts share. A pointer into memory is a buffer,
--             the function from offsets to bytes; packed fields are read low byte first.
--   Config    the constants of kernel/config.h.
--   Math      kernel/math/math.h: rounding and alignment on uint64_t with wrap-around.
--   Memory    kernel/memory/memory.cpp and kernel/types/libc/libc.cpp: filling and copying, the loop
--             over 64-bit words and the loop over the bytes that are left.
--   Bitmap    kernel/types/bit/bit.h and kernel/helper/bitmap/bitmap.cpp, on real bytes.
--   Pmm       kernel/memory/physical/pmm/pmm.cpp and pmm_bitmap/pmm_bitmap.cpp. The globals are the
--             fields of `Pmm`; every function takes the state and gives the new one.
--   Paging    kernel/memory/virtual/paging/paging.cpp. `PagingState` is the memory manager with the
--             entries of all tables; `page_walk`, `map_page` and `free_page` are the functions of
--             these names. Paging/Tables holds the invariant, Entering and Stepping one
--             step down, Walk the three steps, and Mapping the theorems against the processor's walk.
--             Paging/Lookup, Finding and Isolation say that no other page changes, and
--             Ranges what that gives for a range.
--   Vmm       kernel/memory/virtual/vmm/vmm.cpp over Pmm and Paging: handing out mapped pages.
--   Heap      kernel/memory/heap/heap.cpp. A heap is the headers at their addresses with the two
--             bounds; Heap/Layout says when headers form a chain of blocks.
--   Char      kernel/types/char/char.h.
--   Str       kernel/types/string/string.cpp: length, comparing, copying, appending, searching.
--             `Holds t s` says that the buffer holds the terminated text `s`.
--   Edit      the functions of string.cpp that allocate a new text, and kernel/types/utf16.
--   Number    to_string of string.cpp and to_int of kernel/types/integer/integer.cpp.
--   Mbr       kernel/storage/partitioning/mbr/mbr.cpp.
--   Fat32     kernel/storage/filesystem/fat32/fat32.cpp: geometry, cluster chain, reading a file.
--             Fat32/Directory has the directories and the search for a path; `Resolves` in
--             Fat32/Resolving says where the sections of a path lead.
--   Pci       kernel/io/pci/pci.cpp: the scan that counts the devices and the scan that stores them.
--             Pci/Present says what the registers of a function are, without the code's own reads.
--   Ahci      kernel/io/ahci/ahci.cpp: waiting, switching a port, the commands. A `Controller` is
--             what the hardware does with a command, a `Monitor` what its status shows; `IsDisk`
--             is what is taken from the manual: a well-formed read that finishes gives the sectors.
--             Ahci/Port waits and switches, Ahci/Commands has the commands, Ahci/Ports looks for
--             controller and ports; Ahci/Await and Ahci/Switching are about the waits.
--   Storage   kernel/storage/storage.cpp: the devices, their partitions, the choice of one.
--   Filesystem  kernel/storage/filesystem/filesystem.cpp: the current path and cd.
--   Timer     kernel/io/timer/timer.cpp: the ticks, sleeping, and the uptime that is printed.
--   PciNames  kernel/helper/pci_class_names/pci_class_names.cpp.
--   Keymap    kernel/maps/keymap.cpp: the tables and scancode_to_keycode.
--   Terminal  the editing of the input line in kernel/terminal/terminal.cpp. `Edits l before after`
--             relates the buffer and the screen line to the text on both sides of the cursor.
--   History   kernel/terminal/cmd_history/cmd_history.cpp and the arrow keys up and down.
--   Shell     kernel/shell/args.cpp with the table of kernel/shell/commands/commands.cpp and
--             processLineInputBuffer of terminal.cpp: what is run for a line.
--   Keyboard  the interrupt of kernel/io/keyboard/keyboard.cpp with terminal_on_key of terminal.cpp;
--             Keyboard/Typing puts it together with Keymap and Terminal.
--   Screen    the screen buffer of kernel/rendering/screenBuffer and the line handling of
--             kernel/rendering/print/print.cpp: cursor, line breaks, scrolling, dropping old lines.
--
-- Numbers are natural numbers, and a 64-bit, 32-bit or 8-bit result is taken modulo its width where
-- the code can leave the width; an int64_t is its 64-bit pattern. Addresses inside a buffer are not
-- wrapped around; an index behind the end of an array is one of the memory that follows, and a
-- theorem about code without a check of the end asks for the room. malloc is taken to succeed where the code does not look at its answer, and what
-- stands in fresh memory is an argument (`fresh`, `scratch`, `stack`), so that a theorem shows that
-- no function depends on it.
--
-- Loops. A loop with a counter is structural recursion on the rounds that are left. The others run
-- on fuel: a scan for the terminator on 2 ^ 64 rounds, the number of addresses, so that it ends on
-- every terminated text; a division by the base on 64 rounds, since a base of 2 or more takes a
-- 64-bit number to 0 in so many, which the round trip of printing shows; a walk over the heap on
-- as many rounds as the heap has bytes and one more, which is enough as every block has a header,
-- and a walk that would not end is told apart from one that finds nothing; a chain of FAT32
-- clusters on 2 ^ 28 rounds, the number of clusters that there can be. The loops that wait for the
-- disk controller have the source's own limit of 3000 rounds, and time there is counted in
-- rounds. A sleep runs on the number of interrupts that come.
--
-- Not modelled: drawing, port access, interrupts, the boot loader
-- protocol, the font and the unit tests, which are input and output or data; what the
-- commands do, and the end of the completion of their names, which are to follow.
mod Base
pub mod Config
pub mod Math
pub mod Memory
pub mod Bitmap
pub mod Pmm
pub mod Heap
pub mod Paging
pub mod Char
pub mod Str
pub mod Number
pub mod Edit
pub mod Mbr
pub mod Fat32
pub mod Keymap
pub mod Terminal
pub mod History
pub mod Screen
pub mod Keyboard
pub mod Vmm
pub mod Pci
pub mod Ahci
pub mod Storage
pub mod Shell
pub mod Filesystem
pub mod Timer
pub mod PciNames
