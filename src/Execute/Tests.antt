-- ===== src/Execute/Tests.antt =====
-- `execute` on the small file system of Image.
use operating_system_ece.Common.{◌/◌, ◌≡◌, inl, load32, Memory, refl, arith}
use operating_system_ece.Tasks.{initial_tasks, bytes, map_program}
use operating_system_ece.Tasks.Forest.{initial_tasks-IsProcessTable}
use operating_system_ece.Execute.{load_program, execute, read_arguments}
use operating_system_ece.Execute.Image.{image, system, frame}
use operating_system_ece.Filesys.{file_size}
use operating_system_ece.Filesys.Data.{IsApart}
use operating_system_ece.Execute.Loading.{prog_load_addr, before_loading, Loads, load_program-Loads}
use operating_system_ece.Execute.Outcome.{checks, execute-Executes}
use operating_system_ece.Execute.Ends.{Executes}
use operating_system_ece.Execute.Arguments.{Copies, read_arguments-Copies}

execute-Executes_example :
    Executes
      (checks 10 65536 200 frame (initial_tasks system))
      frame
      (initial_tasks system)
      (execute 10 65536 200 frame (initial_tasks system))
execute-Executes_example =
    execute-Executes 10 65536 200 frame (initial_tasks system) (initial_tasks-IsProcessTable system)
      (omega arith) (omega arith)

read_arguments-Copies_example :
    Copies image 200 2 1 0 (λ i. 0) (read_arguments 10 image 200 1 (λ i. 0))
read_arguments-Copies_example =
    read_arguments-Copies image 200 10 1 1 1 (λ i. 0) (λ x lt. ground arith) (ground arith)
      (record { body = λ x lt. ground arith; stop = refl }) (omega arith) (omega arith)

abbrev mapped : Memory
mapped = bytes (before_loading 0 (λ j. 0) (initial_tasks system))

mapped_size : file_size mapped 65536 0 ≡ 28
unfolding map_program file_size load32
mapped_size = refl

first_block : load32 mapped 69636 ≡ 0
unfolding map_program load32
first_block = refl

inode_total : load32 mapped 65540 ≡ 1
unfolding map_program load32
inode_total = refl

mapped-IsApart :
    IsApart mapped 65536 0 prog_load_addr (file_size mapped 65536 0) (file_size mapped 65536 0)
unfolding map_program
mapped-IsApart = rw mapped_size (record {
  slots = λ k h. inl (omega arith);
  bytes = λ j h.
      let first : j / 4096 ≡ 0 = omega arith in
      inl (rw (first, first_block, inode_total) (omega arith));
})

load_program-Loads_example :
    Loads frame 0 65536 0
      (λ j. 0)
      mapped
      (load_program 65536 0 0 (λ j. 0) frame (initial_tasks system))
load_program-Loads_example =
    load_program-Loads 65536 0 0 (λ j. 0) frame (initial_tasks system) refl
      (rw mapped_size (omega arith)) mapped-IsApart
