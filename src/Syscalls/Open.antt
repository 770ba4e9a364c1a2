-- ===== src/Syscalls/Open.antt =====
-- `system_open` of student-distrib/system_execute.c on a regular file.
use octave_os.Base.{ℕ, ◌≡◌, ◌≢◌, ◌⊎◌, sym, List, some, false, arith, ◌==◌, minus_one}
use mathlib.Core.Path.{subst}
use octave_os.Str.{as_bytes}
use octave_os.FileSys.{read_dentry_by_name}
use octave_os.Kernel.{Kernel, file_jump_s, is_null, pid_to_pcb, current_pcb, file_array_size}
use octave_os.Files.{no_dentry, fopen}
use octave_os.Files.Descriptors.{Opened, AllOpen, fopen-Opened}
use octave_os.Syscalls.{reg_file, system_open}

module _ (inb : ℕ) (name : List ℕ) (k : Kernel)
    (found : (read_dentry_by_name k.image (as_bytes name) no_dentry).0 ≢ minus_one)
    (regular : (read_dentry_by_name k.image (as_bytes name) no_dentry).1.filetype ≡ reg_file) where
  -- The switch on the type reaches `fopen`.
  pub system_open-fopen : system_open inb name k ≡ fopen (some name) k
  unfolding system_open
  system_open-fopen =
      let hit : ((read_dentry_by_name k.image (as_bytes name) no_dentry).0 == minus_one) ≡ false =
        ground arith in
      rw (hit, regular)

  -- `system_open` by a running process, of a name that the directory gives to a regular file, returns
  -- the least closed descriptor from 2 on, which is then open at the start of that file with the
  -- functions for regular files, while no other descriptor changes; where all are open it returns -1
  -- and changes nothing.
  pub system_open-Opened :
      is_null (pid_to_pcb k.curr_pid) ≡ false
      → Opened file_jump_s
          (read_dentry_by_name k.image (as_bytes name) no_dentry).1.inode_num
          k
          (system_open inb name k).0
          (system_open inb name k).1
        ⊎ (AllOpen (current_pcb k).file_array 2 file_array_size
            × (system_open inb name k ≡ (minus_one, k)))
  system_open-Opened h =
      let d = (read_dentry_by_name k.image (as_bytes name) no_dentry).1 in
      subst
        (λ r.
          Opened file_jump_s d.inode_num k r.0 r.1
          ⊎ (AllOpen (current_pcb k).file_array 2 file_array_size × (r ≡ (minus_one, k))))
        (sym system_open-fopen) (fopen-Opened name k h found)
