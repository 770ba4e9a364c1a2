-- ===== src/Programs/Cat/Reads.antt =====
-- The loop of syscalls/ece391cat.c: reads of a file, each printed.
use mathlib.Core.Path.{ap₂}
use octave_os.Base.{
  ℕ, zero, suc, ◌+◌, ◌^◌, ◌<◌, ◌≤◌, ◌≡◌, ◌≢◌, refl, ◌∙◌, ap, sym, arith, List, [], ◌∷◌, ◌++◌, some,
  true, false, leb, ◌==◌, if◌then◌else◌, minus_one, leb_signed, add32, Outcome, done, ◌>>=◌, inl,
}
use octave_os.Str.{Bytes, codes, as_bytes}
use octave_os.Console.{puts}
use octave_os.FileSys.{Image, Inode, block_size, read_range, read_data}
use octave_os.FileSys.Blocks.{file_byte, file_bytes, read_range-append}
use octave_os.FileSys.ReadData.{HasBlocks, wanted, read_data-file_bytes}
use octave_os.Kernel.{
  file_jump_s, Kernel, file_array_size, file_open, print, is_null, pid_to_pcb, put_entry,
}
use octave_os.Files.{fread, advance}
use octave_os.Files.Descriptors.{entry}
use octave_os.Keyboard.Line.{length-read_range}
use octave_os.Syscalls.{call_read, system_read, system_write}
use octave_os.Printf.Pieces.Rendered.{print-append}
use octave_os.Programs.{leave}
use octave_os.Programs.Output.{
  HasScreen, system_read-call_read, system_write-print, without_nuls, read_range-as_bytes,
}
use octave_os.Programs.Cat.{cat_loop}

-- `fd` is open on the file, at position `p`.
pub record ReadsFrom (inode fd p : ℕ) (k : Kernel) : Type 0 where
  pub lo : 2 ≤ fd
  pub hi : fd < file_array_size
  pub opened : (entry k fd).flags ≡ file_open
  pub jumps : (entry k fd).file_op_table_ptr ≡ file_jump_s
  pub file : (entry k fd).inode ≡ inode
  pub position : (entry k fd).fpos ≡ p
  pub process : is_null (pid_to_pcb k.curr_pid) ≡ false
  pub screen : HasScreen k

-- Reads of `w` bytes each from `p` on, `m` of them and `q` bytes in all, until the position is not
-- inside the file of `size` bytes. All are within the first block.
pub data Reads (w size : ℕ) : (m p q : ℕ) → Type 0 where
  finished : {p : ℕ} → size ≤ p → Reads w size 0 p 0
  another :
      {m p q : ℕ}
      → p < size
      → p + w ≤ block_size
      → Reads w size m (p + w) q
      → Reads w size (suc m) p (w + q)

without_nuls-append :
    (xs ys : List ℕ) → without_nuls (xs ++ ys) ≡ without_nuls xs ++ without_nuls ys
unfolding without_nuls
without_nuls-append [] ys = refl
without_nuls-append (zero ∷ xs) ys = without_nuls-append xs ys
without_nuls-append (suc x ∷ xs) ys = ap (λ cs. suc x ∷ cs) (without_nuls-append xs ys)

abbrev read_to : (fd p : ℕ) → Kernel → Kernel
read_to fd w k = put_entry fd (record (entry k fd) { fpos = add32 (entry k fd).fpos w }) k

module _ (inb n buf : ℕ) (ok : buf ≢ 0) (inode : ℕ) where
  system_read-read_data :
      (fd p nbytes : ℕ) (k : Kernel)
      → ReadsFrom inode fd p k
      → system_read n fd buf nbytes k
        ≡ read_data k.image inode p nbytes >>= λ q. done (advance fd q k)
  unfolding fread
  system_read-read_data fd p nbytes k h =
      let inside : leb file_array_size fd ≡ false = ground (arith, h.hi) in
      let buffer : (buf == 0) ≡ false = ground arith in
      let reads : fread fd buf nbytes k
          ≡ read_data k.image (entry k fd).inode (entry k fd).fpos nbytes >>= λ q.
              done (advance fd q k) =
        rw buffer (rw h.process (rw inside refl)) in
      system_read-call_read n fd buf nbytes k h.lo h.hi h.opened
      ∙ ap (λ ops. call_read ops n fd buf nbytes k) h.jumps
      ∙ reads
      ∙ ap₂ (λ i p. read_data k.image i p nbytes >>= λ q. done (advance fd q k)) h.file h.position

  ReadsFrom-read_to :
      (fd p w : ℕ) (k : Kernel) (cs : List ℕ)
      → ReadsFrom inode fd p k
      → p + w < 2 ^ 31
      → ReadsFrom inode fd (p + w) (print cs (read_to fd w k))
  ReadsFrom-read_to fd p w k cs h small = record {
    lo = h.lo;
    hi = h.hi;
    opened = let o = h.opened in ground arith;
    jumps = let o = h.jumps in ground arith;
    file = let o = h.file in ground arith;
    position = let o = h.position in ground arith;
    process = h.process;
    screen = record {
      opened = let o = h.screen.opened in let l = h.lo in ground arith;
      jumps = let o = h.screen.jumps in let l = h.lo in ground arith;
    };
  }

  -- The round behind a read.
  abbrev round : (f fd : ℕ) → ℕ × List ℕ × Kernel → Outcome (ℕ × Kernel)
  round f fd (cnt, out, k1) =
      let failed = leave inb (codes "file read failed\n") 3 k1 in
      let written = system_write inb 1 (some (as_bytes out)) cnt k1 >>= λ (r, k2).
      (let rest = cat_loop inb n buf f fd k2 in if r == minus_one then done (3, k2) else rest) in
      if cnt == 0 then done (0, k1) else if cnt == minus_one then failed else written

  round-print :
      (f fd w : ℕ) (g : Bytes) (a : ℕ) (k1 : Kernel)
      → HasScreen k1
      → 0 < w
      → w < 2 ^ 31
      → round f fd (w, read_range g a w, k1)
        ≡ cat_loop inb n buf f fd (print (without_nuls (read_range g a w)) k1)
  round-print f fd w g a k1 h pos small =
      let some_read : (w == 0) ≡ false = ground arith in
      let no_error : (w == minus_one) ≡ false = ground arith in
      let cs = read_range g a w in
      let whole : read_range (as_bytes cs) 0 w ≡ cs =
        ap (read_range (as_bytes cs) 0) (sym (length-read_range g a w)) ∙ read_range-as_bytes cs in
      let written = system_write-print inb (as_bytes cs) w k1 h small in
      rw (some_read, no_error, written, no_error)
        (ap (λ t. cat_loop inb n buf f fd (print (without_nuls t) k1)) whole)

  abbrev step : Kernel → ℕ
  step k = wanted (k.image.inodes inode) 1024

  abbrev bytes : Kernel → (p q : ℕ) → List ℕ
  bytes k p q = without_nuls (file_bytes k.image (k.image.inodes inode) p q)

  read_data-end :
      (p : ℕ) (k : Kernel)
      → inode < k.image.inode_count
      → (k.image.inodes inode).length ≤ p
      → read_data k.image inode p 1024 ≡ done (0, [])
  unfolding read_data
  read_data-end p k isin over =
      let known : leb k.image.inode_count inode ≡ false = ground arith in
      let behind : leb (k.image.inodes inode).length p ≡ true = ground arith in
      rw (known, behind) refl

  HasBlocks-less :
      (img : Image) (t : Inode) (stop : ℕ)
      → HasBlocks img t block_size
      → stop ≤ block_size
      → HasBlocks img t stop
  HasBlocks-less img t stop h le = record {
    small = h.small;
    listed = omega (arith, h.listed);
    inside = λ d l. h.inside d (omega arith);
  }

  bytes-append : (k : Kernel) (p w q : ℕ) → bytes k p (w + q) ≡ bytes k p w ++ bytes k (p + w) q
  bytes-append k p w q =
      let t = k.image.inodes inode in
      ap without_nuls (read_range-append (file_byte k.image t) p w q)
      ∙ without_nuls-append (file_bytes k.image t p w) (file_bytes k.image t (p + w) q)

  pub cat_loop-bytes :
      (m f fd p : ℕ) (k : Kernel) (q : ℕ)
      → ReadsFrom inode fd p k
      → inode < k.image.inode_count
      → HasBlocks k.image (k.image.inodes inode) block_size
      → Reads (step k) (k.image.inodes inode).length m p q
      → m < f
      → (k' : Kernel) × (cat_loop inb n buf f fd k ≡ done (0, k'))
        × (k'.screen ≡ (print (bytes k p q) k).screen)
  unfolding cat_loop puts read_range without_nuls
  cat_loop-bytes m zero fd p k q h isin ok' r fuel = absurd (omega arith)
  cat_loop-bytes _ (suc f) fd p k _ h isin ok' (finished l) fuel = (
    read_to fd 0 k,
    ap (λ o. o >>= λ r. round f fd r)
        (system_read-read_data fd p 1024 k h
          ∙ ap (λ o. o >>= λ q. done (advance fd q k)) (read_data-end p k isin l)),
    refl,
  )
  cat_loop-bytes _ (suc f) fd p k _ h isin ok' (another {m = m} {q = q'} inside fits r) fuel =
      let w = step k in
      let t = k.image.inodes inode in
      let pos : 0 < w = ground arith in
      let bound : w ≤ 1024 = ground arith in
      let k1 = read_to fd w k in
      let k2 = print (bytes k p w) k1 in
      let h2 = ReadsFrom-read_to fd p w k (bytes k p w) h (omega arith) in
      let sign : leb_signed 0 w ≡ true = ground arith in
      let read =
        read_data-file_bytes k.image inode p 1024 isin inside (omega arith) (inl fits)
          (HasBlocks-less k.image t (p + w) ok' fits) in
      let moved : advance fd (w, file_bytes k.image t p w) k ≡ (w, file_bytes k.image t p w, k1) =
        rw sign refl in
      let (k', run, text) = cat_loop-bytes m f fd (p + w) k2 q' h2 isin ok' r (omega arith) in
      (
        k',
        ap (λ o. o >>= λ r. round f fd r)
              (system_read-read_data fd p 1024 k h
                ∙ ap (λ o. o >>= λ q. done (advance fd q k)) read
                ∙ ap done moved)
            ∙ round-print f fd w (file_byte k.image t) p k1
                (record { opened = h2.screen.opened; jumps = h2.screen.jumps }) pos (omega arith)
            ∙ run,
        text
            ∙ sym (
                ap (λ k'. k'.screen)
                  (ap (λ cs. print cs k) (bytes-append k p w q')
                    ∙ print-append (bytes k p w) (bytes k (p + w) q') k)),
      )
