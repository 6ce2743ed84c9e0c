-- ===== src/Scheduler.antt =====
-- student-distrib/scheduler.c: the timer interrupt, which switches the screen when a key asked for it
-- and passes the processor on to the next terminal's process; and `vidmap` of sys_calls.c, which sets
-- the same page. `getPCB` blocks are told apart by the process's number.
pub mod Rotation
pub mod Video
mod Tests
use operating_system_ece.Common.{
  ℕ, ◌+◌, ◌-◌, ◌*◌, ◌/◌, ◌%◌, ◌^◌, Bool, true, ◌||◌, not, ◌&&◌, bit_or, ltb, leb, ◌==◌,
  if◌then◌else◌, update, ℤ, pos, minus_one, write,
}
use operating_system_ece.Screen.{
  Console, video, video_buf, switch_terminal, update_cursor, set_cursors,
}
use operating_system_ece.Pic.{Pic, send, send_eoi, enable_irq}
use operating_system_ece.Keyboard.{Keyboard}

-- The keyboard's state has the console and `switch_flag`. `video_page` is `pgTbl_vidMem[0]`,
-- `video_directory` is `pageDirectory[33]`, and `program_page` is `pageDirectory[_4B]`. `ebp` is the
-- register, and `esp0s` and `ebps` hold `esp0` and `ebp_scheduler` of the control blocks.
pub record Scheduler : Type 0 where
  pub keyboard : Keyboard
  pub video_page : ℕ
  pub video_directory : ℕ
  pub program_page : ℕ
  pub user_vid_mem : ℕ
  pub tss_esp0 : ℕ
  pub ebp : ℕ
  pub esp0s : ℕ → ℕ
  pub ebps : ℕ → ℕ
  pub highest_terminal_processes : ℕ → ℕ
  pub total_terminal : ℕ
  pub init_flag : Bool

abbrev pub console : Scheduler → Console
console s = s.keyboard.console

abbrev pub set_console : Console → Scheduler → Scheduler
set_console c s = record s { keyboard = record s.keyboard { console = c } }

abbrev pub in_three : ℕ → Bool
in_three t = leb 1 t && leb t 3

-- The switch that a function key has asked for.
unfoldable pub show_requested : Keyboard → Keyboard
show_requested k =
    if in_three k.switch_flag
    then record k {
      console = switch_terminal k.console.curr_terminal k.switch_flag k.console;
      switch_flag = 0;
    }
    else k

-- `VIDEO|VID_PAGE` and its kind, and `video_mem`.
abbrev pub set_video : ℕ → Scheduler → Scheduler
set_video page s = record (set_console (record (console s) { video_mem = page }) s) {
  video_page = bit_or page 7;
}

-- The displayed page for the terminal that is shown, and a page of its own for any other.
unfoldable pub map_video : ℕ → Scheduler → Scheduler
map_video terminal s =
    if terminal == (console s).curr_terminal
    then set_video video s
    else if in_three terminal
    then set_video (video_buf terminal) s
    else s

-- The process that a terminal runs.
abbrev pub process_of : ℕ → Scheduler → ℕ
process_of terminal s = s.highest_terminal_processes (terminal - 1)

-- The last part of the handler: the registers of the running process are kept in its block, and those
-- of the next taken from its own.
unfoldable pub run_next : ℕ → Scheduler → Scheduler
run_next next s =
    let from = process_of (console s).curr_scheduled s in
    let to = process_of next s in
    let esp0s' = update s.esp0s from s.tss_esp0 in
    let ebps' = update s.ebps from s.ebp in
    record (set_console (record (console s) { curr_scheduled = next }) s) {
      program_page = bit_or (0x800000 + to * 0x400000 - 0x400000) 0x87;
      esp0s = esp0s';
      tss_esp0 = esp0s' to;
      ebps = ebps';
      ebp = ebps' to;
    }

-- One of the first three interrupts, up to its call of `execute`.
unfoldable pub start_terminal : ℕ → Scheduler → Scheduler
start_terminal next s =
    let total = s.total_terminal + 1 in
    let con = if total - 1 == 0 then console s else switch_terminal (total - 1) total (console s) in
    let con' = set_cursors (pos 0) (pos 0) (update_cursor 0 0 con) in
    let from = process_of (console s).curr_scheduled s in
    if total == 1
    then record (set_console con' s) { total_terminal = total }
    else record (set_console (record con' { curr_scheduled = next }) s) {
      total_terminal = total;
      esp0s = update s.esp0s from s.tss_esp0;
      ebps = update s.ebps from s.ebp;
    }

-- The fourth interrupt goes back to the first terminal.
unfoldable pub finish_start : Scheduler → Scheduler
finish_start s =
    let con = switch_terminal s.total_terminal 1 (console s) in
    record (set_console (record con { curr_scheduled = 3 }) s) {
      total_terminal = s.total_terminal + 1;
      init_flag = true;
    }

-- The handler returns, or goes on to execute a shell.
pub data Tick : Type 0 where
  returns : Scheduler → Tick
  shell : Scheduler → Tick

abbrev pub acknowledged : Scheduler → Scheduler
acknowledged s = set_console (record (console s) { ports = send_eoi 0 (console s).ports }) s

unfoldable pub pit_handler : Scheduler → Tick
pit_handler s =
    let s0 = acknowledged s in
    let s1 = record s0 { keyboard = show_requested s0.keyboard } in
    let next = (console s1).curr_scheduled % 3 + 1 in
    let s2 = map_video next s1 in
    if ltb s2.total_terminal 3
    then shell (start_terminal next s2)
    else if s2.total_terminal == 3
    then returns (finish_start s2)
    else returns (run_next next s2)

-- The divisor is an `int16_t` whose two bytes are sent, the low one first.
unfoldable pub pit_init : Pic → Pic
pit_init p =
    let out_val = 1193182 / 20 % 2 ^ 16 in
    send (out_val / 256) 0x40 (send (out_val % 256) 0x40 (send 0x36 0x43 (enable_irq 0 p)))

-- `*screen_start = ...`, a store of four bytes.
abbrev pub store32 : ℕ → ℕ → Console → Console
store32 a v c = record c {
  mem =
      write
        (write (write (write c.mem a (v % 256)) (a + 1) (v / 256 % 256)) (a + 2) (v / 65536 % 256))
        (a + 3) (v / 16777216 % 256);
}

-- `user_vid_mem` is set once.
abbrev pub user_address : Scheduler → ℕ
user_address s = if s.user_vid_mem == 0 then 0x08400000 else s.user_vid_mem

-- What `vidmap` does with a pointer that it accepts; `table` is the address of `pgTbl_vidMem`.
unfoldable pub video_mapped : ℕ → ℕ → Scheduler → Scheduler
video_mapped table screen_start s =
    let s1 = map_video (console s).curr_scheduled (record s { video_directory = bit_or table 7 }) in
    record (set_console (store32 screen_start (user_address s) (console s1)) s1) {
      user_vid_mem = user_address s;
    }

unfoldable pub vidmap : ℕ → ℕ → Scheduler → ℤ × Scheduler
vidmap table screen_start s =
    if (screen_start == 0) || (ltb screen_start 0x8000000 || not (ltb screen_start 0x08400000))
    then (minus_one, s)
    else (pos 0, video_mapped table screen_start s)
