-- ===== src/FileSys/Directory.antt =====
-- The directory of student-distrib/filesys.c: which entry `read_dentry_by_name` copies.
use octave_os.Base.{
  ℕ, zero, suc, ◌+◌, ◌<◌, ◌≡◌, refl, ◌⊎◌, inl, inr, true, false, arith, minus_one, ◌==◌, Bool-cases,
}
use native.Mathlib.Decide.{ℕ_discrete}
use octave_os.Str.{Bytes, strncmp, text}
use octave_os.Str.Compare.{IsBytes, strncmp-eq_iff}
use octave_os.FileSys.{
  Dentry, Image, file_name_size, copy_dentry, rounds, read_dentry_loop, read_dentry_by_name,
}

-- An entry whose name, read up to its NUL or to 32 bytes, is the text asked for.
abbrev pub IsNamed : Image → Bytes → ℕ → Type 0
IsNamed img fname i = text fname file_name_size ≡ text (img.direntries i).filename file_name_size

-- The first entry from `i` on, among those below `n`, that has the name.
abbrev pub IsFirst : Image → Bytes → ℕ → ℕ → ℕ → Type 0
IsFirst img fname i n m =
    (i < suc m)
    × (m < n)
    × IsNamed img fname m
    × ((j : ℕ) → i < suc j → j < m → ¬ IsNamed img fname j)

-- What a search from `i` to `n` comes to: the first entry with the name, copied, or no such entry.
abbrev pub Looked : Image → Bytes → Dentry → ℕ → ℕ → ℕ × Dentry → Type 0
Looked img fname dentry i n out =
    ((m : ℕ) × IsFirst img fname i n m × (out ≡ (0, copy_dentry dentry (img.direntries m))))
    ⊎ (((j : ℕ) → i < suc j → j < n → ¬ IsNamed img fname j) × (out ≡ (minus_one, dentry)))

module _ (img : Image) (fname : Bytes) (dentry : Dentry) (b : IsBytes fname)
    (bs : (i : ℕ) → IsBytes (img.direntries i).filename) where
  strncmp-IsNamed :
      (i : ℕ)
      → ((strncmp fname (img.direntries i).filename file_name_size == 0) ≡ true)
      → IsNamed img fname i
  strncmp-IsNamed i e =
      (strncmp-eq_iff fname (img.direntries i).filename file_name_size b (bs i)).0 (ground arith)

  strncmp-not_IsNamed :
      (i : ℕ)
      → ((strncmp fname (img.direntries i).filename file_name_size == 0) ≡ false)
      → ¬ IsNamed img fname i
  strncmp-not_IsNamed i e h =
      let z = (strncmp-eq_iff fname (img.direntries i).filename file_name_size b (bs i)).1 h in
      ground arith

  Looked-step :
      (i n : ℕ) {out : ℕ × Dentry}
      → ¬ IsNamed img fname i
      → Looked img fname dentry (i + 1) n out
      → Looked img fname dentry i n out
  Looked-step i n miss (inl (m, (lo, hi, hit, before), e)) = inl (
    m,
    (
      omega arith,
      hi,
      hit,
      λ j h l. elim (ℕ_discrete j i) [ yes p ↦ rw p miss | no p ↦ before j (omega arith) l ],
    ),
    e,
  )
  Looked-step i n miss (inr (none_left, e)) =
      inr (
        λ j h l. elim (ℕ_discrete j i) [ yes p ↦ rw p miss | no p ↦ none_left j (omega arith) l ],
        e,
      )

  Looked-loop :
      (i k n : ℕ) → i + k ≡ n → Looked img fname dentry i n (read_dentry_loop img fname dentry i k)
  unfolding read_dentry_loop
  Looked-loop i zero n e = inr (λ j h l. absurd (omega arith), refl)
  Looked-loop i (suc k) n e =
      elim (Bool-cases (strncmp fname (img.direntries i).filename file_name_size == 0)) [
        | inl hit ↦ rw hit (
            inl (
              i,
              (omega arith, omega arith, strncmp-IsNamed i hit, λ j h l. absurd (omega arith)),
              refl,
            ))
        | inr miss ↦
            rw miss
              (Looked-step i n (strncmp-not_IsNamed i miss) (Looked-loop (i + 1) k n (omega arith)))
      ]

  -- `read_dentry_by_name` copies the first entry among the `dir_count` whose name is the one asked
  -- for and returns 0; if none has the name it returns -1 and copies nothing. Names are compared up
  -- to their NUL or to 32 bytes.
  pub read_dentry_by_name-Looked :
      Looked img fname dentry 0 (rounds img.dir_count) (read_dentry_by_name img fname dentry)
  unfolding read_dentry_by_name
  read_dentry_by_name-Looked =
      Looked-loop 0 (rounds img.dir_count) (rounds img.dir_count) (omega arith)
