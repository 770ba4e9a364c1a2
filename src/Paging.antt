-- ===== src/Paging.antt =====
-- The page tables of student-distrib/paging.c, and the functions of system_execute.c that map a
-- process's memory: `init_paging`, `setup_paging`, `undo_user_paging`, `undo_vmem_paging` and
-- `system_vidmap`. Flushing the TLB and loading the directory have no effect on this state. The
-- addresses of the two tables, which the linker chooses, are parameters.
pub mod Maps
use octave_os.Base.{
  ℕ, zero, suc, ◌+◌, ◌-◌, ◌*◌, ◌/◌, ◌%◌, ◌^◌, Bool, ◌||◌, ltb, leb, ◌==◌, if◌then◌else◌, minus_one,
  update, word_mod,
}
use octave_os.Kernel.{PageEntry, Kernel, current_term, eight_mb}
use octave_os.Terminal.{video, fourkb, user_vmem_syscall, vmem_pte, map_vmem}

abbrev pub num_pages : ℕ
num_pages = 1024

-- The default entry of the page directory, and of both tables, where `ps` stands for `pat`.
abbrev pub default_entry : (ps : ℕ) → PageEntry
default_entry ps = record {
  p = 0;
  r_w = 1;
  u_s = 0;
  pwt = 0;
  pcd = 1;
  a = 1;
  d = 0;
  ps = ps;
  g = 0;
  avl = 0;
  address_20 = 0;
}

-- The first loop of `init_paging` on one array: the entries below 1024 are set.
abbrev pub set_defaults : (ps : ℕ) → (ℕ → PageEntry) → ℕ → PageEntry
set_defaults ps es i = if ltb i num_pages then default_entry ps else es i

-- The page of the table that maps an address.
abbrev pub pte_of : (address : ℕ) → ℕ
pte_of address = address / 2 ^ 12 % 1024

-- The loop over the four pages of video memory, at `i` with `n` rounds left.
unfoldable pub map_video : (i n : ℕ) → (ℕ → PageEntry) → ℕ → PageEntry
map_video i zero es = es
map_video i (suc n) es =
    let at = pte_of video + i in
    let e = record (es at) { p = 1; address_20 = (video + i * fourkb) / 2 ^ 12; r_w = 1 } in
    map_video (i + 1) n (update es at e)

unfoldable pub init_paging : (table_0 : ℕ) → Kernel → Kernel
unfolding map_video
init_paging table_0 k =
    let dir = set_defaults 1 k.page_directory in
    let dir1 = update dir 0 (record (dir 0) { p = 1; ps = 0; address_20 = table_0 / 2 ^ 12 }) in
    let dir2 = update dir1 1 (record (dir1 1) { p = 1; ps = 1; address_20 = 0x00400 }) in
    record k {
      page_directory = dir2;
      page_table_0 = map_video 0 4 (set_defaults 0 k.page_table_0);
      page_table_1 = set_defaults 0 k.page_table_1;
    }

abbrev pub user_program_mem : ℕ
user_program_mem = 0x08000000

-- `USER_PROGRAM_MEM >> 22`
abbrev pub user_program_mem_index : ℕ
user_program_mem_index = user_program_mem / 2 ^ 22

abbrev pub four_mb : ℕ
four_mb = eight_mb / 2

-- Where the memory of a process stands.
abbrev pub program_address : (pid : ℕ) → ℕ
program_address pid = (eight_mb + pid * four_mb) % word_mod

-- `page_directory[USER_PROGRAM_MEM_INDEX]` replaced.
abbrev pub put_user_page : PageEntry → Kernel → Kernel
put_user_page e k = record k { page_directory = update k.page_directory user_program_mem_index e }

unfoldable pub undo_user_paging : Kernel → Kernel
undo_user_paging k = put_user_page (record (k.page_directory user_program_mem_index) { p = 0 }) k

-- `(phys_addr & 0xffc00000) >> 12` keeps the top ten bits.
unfoldable pub setup_paging : (pid : ℕ) → Kernel → Kernel
unfolding undo_user_paging
setup_paging pid k =
    let e = record (k.page_directory user_program_mem_index) {
      u_s = 1;
      p = 1;
      ps = 1;
      address_20 = program_address pid / 2 ^ 22 * 2 ^ 10;
    } in
    if pid == minus_one
    then undo_user_paging k
    else map_vmem (k.screen.terminals (k.pid_to_term pid)).video_mem (put_user_page e k)

unfoldable pub undo_vmem_paging : Kernel → Kernel
undo_vmem_paging k = record k {
  page_table_1 = update k.page_table_1 vmem_pte (record (k.page_table_1 vmem_pte) { p = 0 });
}

-- The argument is the address of the user's pointer; what is written there is `USER_VMEM_SYSCALL`,
-- returned as the last part.
unfoldable pub system_vidmap : (table_1 screen_start : ℕ) → Kernel → ℕ × Kernel × ℕ
system_vidmap table_1 screen_start k =
    let phys_addr = (k.screen.terminals (current_term k)).video_mem in
    let pte = record (k.page_table_1 vmem_pte) {
      p = 1;
      address_20 = phys_addr / 2 ^ 12;
      r_w = 1;
      u_s = 1;
    } in
    let pde_ind = user_vmem_syscall / 2 ^ 22 in
    let pde = record (k.page_directory pde_ind) {
      p = 1;
      ps = 0;
      address_20 = table_1 / 2 ^ 12;
      u_s = 1;
      r_w = 1;
    } in
    if ltb screen_start user_program_mem || leb user_vmem_syscall screen_start
    then (minus_one, k, 0)
    else (
      0,
      record k {
        page_table_1 = update k.page_table_1 vmem_pte pte;
        page_directory = update k.page_directory pde_ind pde;
      },
      user_vmem_syscall,
    )
