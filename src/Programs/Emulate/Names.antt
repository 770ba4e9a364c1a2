-- ===== src/Programs/Emulate/Names.antt =====
-- The directory that syscalls/ece391emulate.c shows to a program.
use octave_os.Base.{
  ℕ, zero, suc, ◌+◌, ◌≤◌, ◌<◌, ◌≡◌, refl, sym, ap, ◌∙◌, arith, List, [], ◌∷◌, ◌++◌, map, none, some,
  true, false, ◌==◌, ◌&&◌, ltb, if◌then◌else◌, take, replicate, ltb_signed, Outcome, done, fault,
  out_of_fuel, ◌>>=◌, length,
}
use octave_os.Programs.Emulate.{
  Linux, Emulated, pad_name, copy_name, ece391_read, read_stream, read_entry,
}

-- A name in the 32 bytes that the kernel's directory has for it.
abbrev pub padded : List ℕ → List ℕ
padded name = take 32 (name ++ replicate 32 0)

pad_name-zeros :
    (n room copied : ℕ)
    → copied + room ≡ 32
    → room ≤ n
    → pad_name n 32 copied ≡ (32, replicate room 0)
unfolding pad_name
pad_name-zeros zero zero copied h le = ap (λ c. (c, [])) (omega arith)
pad_name-zeros zero (suc room) copied h le = absurd (omega arith)
pad_name-zeros (suc n) zero copied h le =
    let stop : (ltb_signed copied 32 && ltb copied 32) ≡ false = ground arith in
    rw stop (ap (λ c. (c, [])) (omega arith))
pad_name-zeros (suc n) (suc room) copied h le =
    let more : (ltb_signed copied 32 && ltb copied 32) ≡ true = ground arith in
    rw more
      (ap (λ r. (r.0, 0 ∷ r.1)) (pad_name-zeros n room (copied + 1) (omega arith) (omega arith)))

take-replicate : (n m : ℕ) → n ≤ m → take {A = ℕ} n (replicate m 0) ≡ replicate n 0
take-replicate zero m h = refl
take-replicate (suc n) zero h = absurd (omega arith)
take-replicate (suc n) (suc m) h = ap (λ r. 0 ∷ r) (take-replicate n m (omega arith))

copy_name-nil : (nbytes copied : ℕ) → copy_name [] nbytes copied ≡ pad_name 32 nbytes copied
unfolding copy_name
copy_name-nil nbytes copied = refl

copy_name-padded :
    (name : List ℕ) (copied room : ℕ)
    → copied + suc room ≡ 32
    → copy_name name 32 copied ≡ (32, take (suc room) (name ++ replicate 32 0))
unfolding copy_name
copy_name-padded [] copied room h =
    copy_name-nil 32 copied
    ∙ pad_name-zeros 32 (suc room) copied h (omega arith)
    ∙ ap (λ l. (32, l)) (sym (take-replicate (suc room) 32 (omega arith)))
copy_name-padded (c ∷ cs) copied zero h =
    let last : (copied + 1 == 32) ≡ true = ground arith in rw last refl
copy_name-padded (c ∷ cs) copied (suc room) h =
    let more : (copied + 1 == 32) ≡ false = ground arith in
    let short : (32 == copied + 1) ≡ false = ground arith in
    rw (more, short)
      (ap (λ r. (r.0, c ∷ r.1)) (copy_name-padded cs (copied + 1) room (omega arith)))

-- The stream lists these names and ends.
pub data Lists {Dir State : Type 0} (linux : Linux Dir State) : Dir → List (List ℕ) → Type 0 where
  lists_end : {d : Dir} → linux.readdir d ≡ none → Lists linux d []
  lists_next :
      {d : Dir} {d' : Dir} {name : List ℕ} {names : List (List ℕ)}
      → linux.readdir d ≡ some (name, d')
      → Lists linux d' names
      → Lists linux d (name ∷ names)

module _ {Dir State : Type 0} (linux : Linux Dir State) where
  -- What a program that reads 32 bytes until nothing comes gets.
  unfoldable pub read_names : (fuel fd : ℕ) → Emulated Dir State → Outcome (List (List ℕ))
  unfolding ece391_read
  read_names zero fd e = fault out_of_fuel
  read_names (suc fuel) fd e =
      let (r, bytes, e1) = ece391_read linux fd 32 e in
      let rest = read_names fuel fd e1 >>= λ names. done (bytes ∷ names) in
      if r == 0 then done [] else rest

  -- A program that reads 32 bytes of the directory again and again, as `ls` does, gets each name of
  -- the stream in 32 bytes, filled up with NULs or cut off, in order, and then 0: what the kernel
  -- gives for its own directory. The descriptor is the directory's, and the fuel is more than the
  -- names.
  pub read_names-padded :
      (fuel fd : ℕ) (e : Emulated Dir State) (d : Dir) (names : List (List ℕ))
      → e.dir ≡ some d
      → e.dir_fd ≡ fd
      → Lists linux d names
      → length names < fuel
      → read_names fuel fd e ≡ done (map padded names)
  unfolding read_names ece391_read read_stream read_entry
  read_names-padded zero fd e d names hd hfd ls enough = absurd (omega arith)
  read_names-padded (suc fuel) fd e d [] hd hfd (lists_end none_left) enough =
      let mine : (e.dir_fd == fd) ≡ true = ground arith in rw (mine, hd, none_left) refl
  read_names-padded (suc fuel) fd e d (name ∷ names) hd hfd (lists_next {d' = d'} next ls) enough =
      let mine : (e.dir_fd == fd) ≡ true = ground arith in
      let copied = copy_name-padded name 0 31 refl in
      let rest =
        read_names-padded fuel fd (record e { dir = some d' }) d' names refl hfd ls (omega arith) in
      rw (mine, hd, next, copied) (ap (λ o. o >>= λ ns. done (padded name ∷ ns)) rest)
