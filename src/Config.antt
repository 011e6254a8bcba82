-- ===== src/Config.antt =====
-- The constants of kernel/config.h that the models use.
use esz_os.Base.{ℕ, ◌*◌}

abbrev pub terminal_buffer_size : ℕ
terminal_buffer_size = 256

abbrev pub max_command_history : ℕ
max_command_history = 100

abbrev pub page_size : ℕ
page_size = 4096

abbrev pub init_heap_size : ℕ
init_heap_size = 4096 * 1024 * 4

abbrev pub virtual_offset_vmm : ℕ
virtual_offset_vmm = 0xFFFFB00000000000

abbrev pub max_path_depth : ℕ
max_path_depth = 64

abbrev pub max_path_length : ℕ
max_path_length = 4096

abbrev pub sector_size_bytes : ℕ
sector_size_bytes = 512

abbrev pub cursor_blink_interval : ℕ
cursor_blink_interval = 400

abbrev pub pit_tick_hz : ℕ
pit_tick_hz = 100
