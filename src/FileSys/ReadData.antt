-- ===== src/FileSys/ReadData.antt =====
-- `read_data` of student-distrib/filesys.c against the stream of bytes that an inode's blocks hold.
use mathlib.Core.List.{append-nil, append_assoc}
use octave_os.Base.{
  ℕ, zero, suc, ◌+◌, ◌-◌, ◌*◌, ◌/◌, ◌^◌, ◌<◌, ◌≤◌, ◌≡◌, refl, ◌∙◌, ap, ◌⊎◌, List, [], ◌++◌, false,
  arith, word_mod, ltb, leb, if◌then◌else◌, done,
}
use octave_os.FileSys.{
  Image, Inode, block_size, inode_datablock, read_range, ReadLoop, read_round, read_loop, read_fuel,
  read_data,
}
use mathlib.Core.Path.{ap₂, sym}
use native.Mathlib.Decide.{dec_lt}
use octave_os.FileSys.Blocks.{file_bytes, block-eq-file, read_range-append}

-- The blocks that hold the bytes before `stop` are blocks of the image, and the inode lists them.
pub record HasBlocks (img : Image) (t : Inode) (stop : ℕ) : Type 0 where
  pub small : img.data_count ≤ 2 ^ 20
  pub listed : stop ≤ block_size * inode_datablock
  pub inside : (d : ℕ) → block_size * d < stop → t.data_block_num d < img.data_count

module _ (img : Image) (t : Inode) (stop : ℕ) (ok : HasBlocks img t stop) (again : ReadLoop)
    (d off left read : ℕ) (out : List ℕ) where
  read_round_zero : left ≡ 0 → read_round img t again d off left read out ≡ done (read, out)
  unfolding read_round
  read_round_zero e = rw e

  -- A round that ends the read.
  read_round_last :
      0 < left
      → left < block_size
      → off + left ≤ block_size
      → block_size * d + off + left ≤ stop
      → read + left < word_mod
      → read_round img t again d off left read out
        ≡ again d off 0 (read + left) (out ++ file_bytes img t (block_size * d + off) left)
  unfolding read_round
  read_round_last pos part fits before small =
      let inside = ok.inside d (omega arith) in
      ground (arith, ok.small, ok.listed, block-eq-file img t d off left)

  -- A round that copies the rest of a block.
  read_round_whole :
      block_size ≤ left
      → off < block_size
      → block_size * d + off + left ≤ stop
      → read + left < word_mod
      → read_round img t again d off left read out
        ≡ again
            (d + 1)
            0
            (left - (block_size - off))
            (read + (block_size - off))
            (out ++ file_bytes img t (block_size * d + off) (block_size - off))
  unfolding read_round
  read_round_whole full fits before small =
      let inside = ok.inside d (omega arith) in
      ground (arith, ok.small, ok.listed, block-eq-file img t d off (block_size - off))

module _ (img : Image) (t : Inode) (stop : ℕ) (ok : HasBlocks img t stop) where
  -- What is left lies within the block at hand.
  read_loop_short :
      (f d off left read : ℕ) (out : List ℕ)
      → left < block_size
      → off + left ≤ block_size
      → block_size * d + off + left ≤ stop
      → read + left < word_mod
      → read_loop img t (suc (suc f)) d off left read out
        ≡ done (read + left, out ++ file_bytes img t (block_size * d + off) left)
  unfolding read_loop read_range
  read_loop_short f d off zero read out part fits before small =
      read_round_zero img t stop ok (read_loop img t (suc f)) d off 0 read out refl
      ∙ ap₂ (λ n xs. done (n, xs)) (omega arith) (sym (append-nil out))
  read_loop_short f d off (suc left) read out part fits before small =
      read_round_last img t stop ok (read_loop img t (suc f)) d off (suc left) read out
        (omega arith) part fits before small
      ∙ read_round_zero img t stop ok (read_loop img t f) d off 0 (read + suc left)
          (out ++ file_bytes img t (block_size * d + off) (suc left)) refl

  -- Two stretches of the file, one behind the other.
  file_bytes-join :
      (a m n c : ℕ) (out : List ℕ)
      → c ≡ a + m
      → (out ++ file_bytes img t a m) ++ file_bytes img t c n ≡ out ++ file_bytes img t a (m + n)
  file_bytes-join a m n c out e =
      rw (e, read_range-append)
        (append_assoc out (file_bytes img t a m) (file_bytes img t (a + m) n))

  -- A round that copies the rest of a block, and the rest of the loop.
  read_loop_step :
      (f d off left read : ℕ) (out : List ℕ)
      → block_size ≤ left
      → off < block_size
      → block_size * d + off + left ≤ stop
      → read + left < word_mod
      → ((xs : List ℕ)
          → read_loop img t f (d + 1) 0 (left - (block_size - off)) (read + (block_size - off)) xs
            ≡ done (
              read + (block_size - off) + (left - (block_size - off)),
              xs ++ file_bytes img t (block_size * (d + 1)) (left - (block_size - off)),
            ))
      → read_loop img t (suc f) d off left read out
        ≡ done (read + left, out ++ file_bytes img t (block_size * d + off) left)
  unfolding read_loop
  read_loop_step f d off left read out full fits before small rest =
      read_round_whole img t stop ok (read_loop img t f) d off left read out full fits before small
      ∙ rest (out ++ file_bytes img t (block_size * d + off) (block_size - off))
      ∙ ap₂ (λ n xs. done (n, xs)) (omega arith)
          (file_bytes-join (block_size * d + off) (block_size - off) (left - (block_size - off))
              (block_size * (d + 1)) out (omega arith)
            ∙ ap (λ n. out ++ file_bytes img t (block_size * d + off) n) (omega arith))

  -- From the start of a block on, the loop copies the file's next `left` bytes.
  read_loop_aligned :
      (f d left read : ℕ) (out : List ℕ)
      → left / block_size + 2 ≤ f
      → block_size * d + left ≤ stop
      → read + left < word_mod
      → read_loop img t f d 0 left read out
        ≡ done (read + left, out ++ file_bytes img t (block_size * d) left)
  unfolding read_loop
  read_loop_aligned zero d left read out fuel before small = absurd (omega arith)
  read_loop_aligned (suc zero) d left read out fuel before small = absurd (omega arith)
  read_loop_aligned (suc (suc f)) d left read out fuel before small =
      elim (dec_lt left block_size) [
        | yes short ↦
            read_loop_short f d 0 left read out short (omega arith) (omega arith) small
            ∙ ap (λ a. done (read + left, out ++ file_bytes img t a left)) (omega arith)
        | no long ↦
            read_loop_step (suc f) d 0 left read out (omega arith) (omega arith) (omega arith) small
              (λ xs.
                read_loop_aligned (suc f) (d + 1) (left - block_size) (read + block_size) xs
                  (omega arith) (omega arith) (omega arith))
            ∙ ap (λ a. done (read + left, out ++ file_bytes img t a left)) (omega arith)
      ]

  -- A read that starts in the first block.
  read_loop_first :
      (off n : ℕ)
      → off < block_size
      → (off + n ≤ block_size) ⊎ (block_size ≤ n)
      → off + n ≤ stop
      → read_loop img t (read_fuel n) 0 off n 0 [] ≡ done (n, file_bytes img t off n)
  read_loop_first off n first shape before =
      let fuel : read_fuel n ≡ suc (suc (n / block_size + 2)) = omega arith in
      rw fuel (go ∙ ap₂ (λ m a. done (m, file_bytes img t a n)) (omega arith) (omega arith))
    where
      go :
          read_loop img t (suc (suc (n / block_size + 2))) 0 off n 0 []
          ≡ done (0 + n, file_bytes img t (block_size * 0 + off) n)
      go = elim (dec_lt n block_size) [
        | yes short ↦
            read_loop_short (n / block_size + 2) 0 off n 0 [] short (omega arith) (omega arith)
              (omega (arith, ok.listed))
        | no long ↦
            read_loop_step (suc (n / block_size + 2)) 0 off n 0 [] (omega arith) first (omega arith)
              (omega (arith, ok.listed))
              (λ xs.
                read_loop_aligned (suc (n / block_size + 2)) 1 (n - (block_size - off))
                  (0 + (block_size - off)) xs (omega arith) (omega arith)
                  (omega (arith, ok.listed)))
      ]

-- The number of bytes that `read_data` sets out to read.
abbrev pub wanted : Inode → ℕ → ℕ
wanted t length = if ltb length t.length then length else t.length

module _ (img : Image) (inode offset length : ℕ) where
  -- `read_data`, on an inode of the image and an offset inside the file and inside its first block,
  -- where the read ends in that block or is at least a block long: it returns the smaller of the
  -- length asked for and the file's length, whatever the offset, and copies as many bytes of the
  -- file's blocks from the offset on, in order. The blocks up to there are in the image.
  pub read_data-file_bytes :
      inode < img.inode_count
      → offset < (img.inodes inode).length
      → offset < block_size
      → (offset + wanted (img.inodes inode) length ≤ block_size)
        ⊎ (block_size ≤ wanted (img.inodes inode) length)
      → HasBlocks img (img.inodes inode) (offset + wanted (img.inodes inode) length)
      → read_data img inode offset length
        ≡ done (
          wanted (img.inodes inode) length,
          file_bytes img (img.inodes inode) offset (wanted (img.inodes inode) length),
        )
  unfolding read_data
  read_data-file_bytes isin inside first shape ok =
      let t = img.inodes inode in
      let start : offset / block_size ≡ 0 = omega arith in
      let run =
        read_loop_first img t (offset + wanted t length) ok offset (wanted t length) first shape
          (omega arith) in
      let known : leb img.inode_count inode ≡ false = ground arith in
      let within : leb (img.inodes inode).length offset ≡ false = ground arith in
      rw (known, within, start) run
