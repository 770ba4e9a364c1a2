-- ===== src/FileSys/Blocks.antt =====
-- Ranges of bytes, and the stream of bytes that an inode's blocks hold, for the proofs about
-- `read_data` of student-distrib/filesys.c.
use octave_os.Base.{
  ℕ, zero, suc, ◌+◌, ◌*◌, ◌/◌, ◌%◌, ◌^◌, ◌<◌, ◌≤◌, ◌≡◌, refl, ◌∙◌, ap, List, ◌∷◌, ◌++◌, arith,
}
use octave_os.Str.{Bytes}
use mathlib.Core.Path.{ap₂}
use native.Mathlib.Nat.{zero-add, add-zero, add_assoc, add_comm}
use Prim.Native.Nat.add
use octave_os.FileSys.{Image, Inode, block_size, get_data_address, read_range, at_distance}

-- The byte at position `i` of the file: its block is number `i / 4096`.
abbrev pub file_byte : Image → Inode → Bytes
file_byte img t i = img.bytes (block_size * t.data_block_num (i / block_size) + i % block_size)

abbrev pub file_bytes : Image → Inode → ℕ → ℕ → List ℕ
file_bytes img t a n = read_range (file_byte img t) a n

pub read_range-append :
    (f : Bytes) (a m n : ℕ) → read_range f a (m + n) ≡ read_range f a m ++ read_range f (a + m) n
unfolding read_range
read_range-append f a zero n = rw (zero-add, add-zero)
read_range-append f a (suc m) n =
    rw (add.suc, read_range-append f (a + 1) m n)
      (ap (λ k. f a ∷ (read_range f (a + 1) m ++ read_range f k n)) (omega arith))

-- Two ranges agree when their values do, place by place.
pub read_range_shift :
    (f g : Bytes) (a b n : ℕ)
    → ((k : ℕ) → k < n → f (a + k) ≡ g (b + k))
    → read_range f a n ≡ read_range g b n
unfolding read_range
read_range_shift f g a b zero h = refl
read_range_shift f g a b (suc n) h = ap₂ ◌∷◌ (rw (add-zero, add-zero) at (h 0 (omega arith))) (
    read_range_shift f g (a + 1) (b + 1) n
      (λ k l. rw (add_assoc, add_assoc, add_comm 1 k) (h (k + 1) (omega arith))))

file_byte-block :
    (img : Image) (t : Inode) (d k i : ℕ)
    → k < block_size
    → i ≡ block_size * d + k
    → img.bytes (block_size * t.data_block_num d + k) ≡ file_byte img t i
file_byte-block img t d k i h e =
    ap₂ (λ b p. img.bytes (block_size * t.data_block_num b + p)) (omega arith) (omega arith)

-- Inside one block the memory behind it is the file's stream.
pub block-eq-file :
    (img : Image) (t : Inode) (d off n : ℕ)
    → off + n ≤ block_size
    → t.data_block_num d < 2 ^ 20
    → read_range (at_distance img) (get_data_address (t.data_block_num d) + off) n
      ≡ file_bytes img t (block_size * d + off) n
block-eq-file img t d off n fits small =
    read_range_shift (at_distance img) (file_byte img t)
      (get_data_address (t.data_block_num d) + off) (block_size * d + off) n
      λ k l.
        ap img.bytes (omega arith) ∙ file_byte-block img t d (off + k) _ (omega arith) (omega arith)
