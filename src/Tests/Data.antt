-- ===== src/Tests/Data.antt =====
-- A kernel with one process, three terminals and a small file system, for the examples: the
-- directory holds the file "hi", inode 1, whose five bytes are "hello" in data block 2.
use octave_os.Base.{ℕ, ◌*◌, List, [], ◌∷◌, if◌then◌else◌, ltb, ◌==◌, get_or, ◌-◌, ◌%◌}
use octave_os.FileSys.{Image, block_size}
use octave_os.Screen.{Termdata, Screen}
use octave_os.Kernel.{Kernel}
use octave_os.Pic.{Pic}
use octave_os.Terminal.Switch.{page_of}
use octave_os.Paging.{default_entry}
use octave_os.Process.{zero_pcb}

abbrev pub name_hi : List ℕ
name_hi = 104 ∷ 105 ∷ []

abbrev pub hello : List ℕ
hello = 104 ∷ 101 ∷ 108 ∷ 108 ∷ 111 ∷ []

abbrev pub image : Image
image = record {
  dir_count = 1;
  inode_count = 2;
  data_count = 3;
  direntries = λ i. record {
    filename = λ j. if j == 0 then 104 else if j == 1 then 105 else 0;
    filetype = 2;
    inode_num = 1;
    reserved = λ j. 0;
  };
  inodes = λ i. record { length = 5; data_block_num = λ d. 2 };
  bytes = λ a. if ltb a (block_size * 2) then 0 else get_or hello (a - block_size * 2) 0;
}

-- The terminal `t` where the first is shown, its cursor in column `x` and row `y`.
abbrev pub terminal : (x y t : ℕ) → Termdata
terminal x y t = record {
  keybuf = λ i. 120;
  buflen = 2;
  enter_pressed = 0;
  shift = 0;
  caps_lock = 0;
  caps_lock_count = 0;
  capital = 0;
  ctrl = 0;
  alt = 0;
  e_zero = 0;
  screen_x = x;
  screen_y = y;
  video_mem = page_of 0 t;
  runon = 0;
  top_pid = t;
}

abbrev pub screen : (x y : ℕ) → Screen
screen x y = record {
  curr_term = 0;
  terminals = λ t. terminal x y t;
  mem = λ a. a % 256;
  ports = [];
}

abbrev pub pic : Pic
pic = record { master_mask = 255; slave_mask = 255; set_mask = 0 }

abbrev pub kernel : Kernel
kernel = record {
  image = image;
  curr_pid = 1;
  restart_shell = 0;
  free_pid = λ i. if ltb i 3 then 0 else 1;
  pcbs = λ i. zero_pcb;
  pid_to_term = λ i. i;
  screen = screen 3 4;
  rtc_count = 4;
  rtc_scales = λ i. 2;
  process_flags = λ i. 0;
  page_directory = λ i. default_entry 1;
  page_table_0 = λ i. default_entry 0;
  page_table_1 = λ i. default_entry 0;
  tss_esp0 = 0;
  tss_ss0 = 0;
  schedule_counter = 2;
  pit_count = 9;
  shells_done = 1;
  pic = pic;
}
