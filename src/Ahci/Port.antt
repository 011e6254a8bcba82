-- ===== src/Ahci/Port.antt =====
-- The waiting loops of kernel/io/ahci/ahci.cpp, and starting and stopping a port.
use esz_os.Base.{ℕ, zero, suc, ◌+◌, Bool, true, false, ◌||◌, not, if◌then◌else◌}

-- The status bits that the driver polls.
pub record PortStatus : Type 0 where
  pub fr : Bool
  pub cr : Bool
  pub bsy : Bool
  pub drdy : Bool

-- The bits of the port's command register that the driver sets.
pub record PortCommand : Type 0 where
  pub fre : Bool
  pub st : Bool

-- What the status shows for a command register at a time, counted in rounds of the waiting loops,
-- each of which calls sleep_ms(1).
abbrev pub Monitor : Type 0
Monitor = PortCommand → ℕ → PortStatus

abbrev pub timeout : ℕ
timeout = 3000

-- The waiting loops, with `left` polls before the timeout: whether the status came, and the time.
unfoldable pub await_from : ℕ → (ℕ → Bool) → ℕ → Bool × ℕ
await_from zero ready time = (false, time)
await_from (suc left) ready time =
    let later = await_from left ready (time + 1) in if ready time then (true, time) else later

unfoldable pub await_task_finish : (ℕ → Bool) → ℕ → Bool × ℕ
await_task_finish busy time = await_from timeout (λ t. not (busy t)) time

unfoldable pub same_bit : Bool → Bool → Bool
same_bit a b = if a then b else not b

unfoldable pub await_fis_receive_engine : Monitor → PortCommand → Bool → ℕ → Bool × ℕ
await_fis_receive_engine monitor cmd status time =
    await_from timeout (λ t. same_bit (monitor cmd t).fr status) time

unfoldable pub await_command_list_engine : Monitor → PortCommand → Bool → ℕ → Bool × ℕ
await_command_list_engine monitor cmd status time =
    await_from timeout (λ t. same_bit (monitor cmd t).cr status) time

unfoldable pub await_drive_ready : Monitor → PortCommand → ℕ → Bool × ℕ
await_drive_ready monitor cmd time =
    await_from timeout (λ t. not ((monitor cmd t).bsy || not (monitor cmd t).drdy)) time

-- The answer, the command register and the time.
unfoldable pub set_sata_port_status : Monitor → Bool → PortCommand → ℕ → Bool × (PortCommand × ℕ)
set_sata_port_status monitor true cmd time =
    let receiving = record cmd { fre = true } in
    let (received, time1) = await_fis_receive_engine monitor receiving true time in
    let (ready, time2) = await_drive_ready monitor receiving time1 in
    let started = record receiving { st = true } in
    let (running, time3) = await_command_list_engine monitor started true time2 in
    if not received
    then (false, (receiving, time1))
    else if not ready
    then (false, (receiving, time2))
    else (running, (started, time3))
set_sata_port_status monitor false cmd time =
    let stopped = record cmd { st = false } in
    let (idle, time1) = await_command_list_engine monitor stopped false time in
    let quiet = record stopped { fre = false } in
    let (received, time2) = await_fis_receive_engine monitor quiet false time1 in
    if not idle then (false, (stopped, time1)) else (received, (quiet, time2))
