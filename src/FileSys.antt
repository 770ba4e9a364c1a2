-- ===== src/FileSys.antt =====
-- The read-only file system of student-distrib/filesys.c and filesys.h: the image, the directory,
-- and `read_data`. The functions on file descriptors are in `Files`.
--
-- The image is a record of what the three kinds of blocks hold. `direntries`, `inodes` and
-- `data_block_num` are functions of the index; the directory's array has 63 entries and an inode's
-- has 1023, and `read_data` on an index past those faults. `bytes` is the memory from the first data
-- block on: a distance in it is a difference of pointers, so it is taken modulo 2 ^ 32.
pub mod Directory
pub mod Blocks
pub mod ReadData
use octave_os.Base.{
  ℕ, zero, suc, ◌+◌, ◌-◌, ◌*◌, ◌/◌, ◌%◌, ◌^◌, List, [], ◌∷◌, ◌++◌, ltb, leb, ◌==◌, if◌then◌else◌,
  add32, word_mod, minus_one, leb_signed, Outcome, done, fault, out_of_bounds, out_of_fuel,
}
use octave_os.Str.{Bytes, strncmp}

pub record Dentry : Type 0 where
  pub filename : Bytes
  pub filetype : ℕ
  pub inode_num : ℕ
  pub reserved : Bytes

pub record Inode : Type 0 where
  pub length : ℕ
  pub data_block_num : ℕ → ℕ

pub record Image : Type 0 where
  pub dir_count : ℕ
  pub inode_count : ℕ
  pub data_count : ℕ
  pub direntries : ℕ → Dentry
  pub inodes : ℕ → Inode
  pub bytes : ℕ → ℕ

abbrev pub file_name_size : ℕ
file_name_size = 32

-- `DATA_BLOCK_SIZE * NUM_DATABLOCKS`, the bytes of one block.
abbrev pub block_size : ℕ
block_size = 1024 * 4

abbrev pub inode_datablock : ℕ
inode_datablock = 1023

abbrev pub get_dentry_address : Image → ℕ → Dentry
get_dentry_address img index = img.direntries index

-- DENTRY_SIZE is 40: the name, the type and the inode number, without the reserved bytes.
unfoldable pub copy_dentry : Dentry → Dentry → Dentry
copy_dentry to from = record to {
  filename = from.filename;
  filetype = from.filetype;
  inode_num = from.inode_num;
}

-- The loop at `i`, with `k` rounds left of `dir_count`.
unfoldable pub read_dentry_loop : Image → Bytes → Dentry → ℕ → ℕ → ℕ × Dentry
read_dentry_loop img fname dentry i zero = (minus_one, dentry)
read_dentry_loop img fname dentry i (suc k) =
    let rest = read_dentry_loop img fname dentry (i + 1) k in
    if strncmp fname (get_dentry_address img i).filename file_name_size == 0
    then (0, copy_dentry dentry (get_dentry_address img i))
    else rest

-- The rounds of `for (i = 0; i < n; ++i)` with an `int32_t` bound: none for a negative one.
abbrev pub rounds : ℕ → ℕ
rounds n = if ltb n (2 ^ 31) then n else 0

-- The return value, and `*dentry` afterwards.
unfoldable pub read_dentry_by_name : Image → Bytes → Dentry → ℕ × Dentry
unfolding read_dentry_loop copy_dentry
read_dentry_by_name img fname dentry = read_dentry_loop img fname dentry 0 (rounds img.dir_count)

unfoldable pub read_dentry_by_index : Image → ℕ → Dentry → ℕ × Dentry
unfolding copy_dentry
read_dentry_by_index img index dentry =
    if leb img.dir_count index
    then (minus_one, dentry)
    else (0, copy_dentry dentry (get_dentry_address img index))

-- The distance of a data block from the first one.
abbrev pub get_data_address : ℕ → ℕ
get_data_address dblock_num = block_size * dblock_num % word_mod

-- The `n` values of `f` from `a` on.
unfoldable pub read_range : Bytes → ℕ → ℕ → List ℕ
read_range f a zero = []
read_range f a (suc n) = f a ∷ read_range f (a + 1) n

-- The source of a `memcpy` out of the data blocks.
abbrev pub at_distance : Image → Bytes
at_distance img a = img.bytes (a % word_mod)

-- The state of `while (left_to_read)`: the index of the block, the offset in it, what is left to
-- read, what has been read, and the bytes that went into `buf`, in order.
abbrev pub ReadLoop : Type 0
ReadLoop = (d offset left read : ℕ) → List ℕ → Outcome (ℕ × List ℕ)

-- One round; `again` is the rest of the loop. The result is the return value and the bytes in `buf`.
-- Behind an offset past one block the length of the first copy wraps to almost 2 ^ 32.
unfoldable pub read_round : Image → Inode → ReadLoop → ReadLoop
read_round img t again d offset left read out =
    let dblock = get_data_address (t.data_block_num d) in
    let part = block_size - offset in
    if left == 0
    then done (read, out)
    else if leb inode_datablock d
    then fault out_of_bounds
    else if leb_signed img.data_count (t.data_block_num d)
    then done (minus_one, out)
    else if leb block_size left
    then (if ltb block_size offset
        then fault out_of_bounds
        else again (d + 1) 0 (left - part) (add32 read part)
            (out ++ read_range (at_distance img) (dblock + offset) part))
    else again d offset 0 (add32 read left)
        (out ++ read_range (at_distance img) (dblock + offset) left)

unfoldable pub read_loop : Image → Inode → ℕ → ReadLoop
unfolding read_round
read_loop img t zero d offset left read out = fault out_of_fuel
read_loop img t (suc f) d offset left read out =
    read_round img t (read_loop img t f) d offset left read out

-- The fuel of the loop: the rounds for whole blocks, the first and the last copy, and the test that
-- ends the loop.
abbrev pub read_fuel : ℕ → ℕ
read_fuel left = left / block_size + 4

unfoldable pub read_data : Image → (inode offset length : ℕ) → Outcome (ℕ × List ℕ)
unfolding read_loop read_range
read_data img inode offset length =
    let t = img.inodes inode in
    let left = if ltb length t.length then length else t.length in
    if leb img.inode_count inode
    then done (minus_one, [])
    else if leb t.length offset
    then done (0, [])
    else read_loop img t (read_fuel left) (offset / block_size) offset left 0 []
