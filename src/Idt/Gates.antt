-- ===== src/Idt/Gates.antt =====
-- What `set_idt` of student-distrib/idt/idt.c leaves in the table.
use native.Mathlib.Decide.{ℕ_discrete}
use mathlib.Core.Path.{subst}
use octave_os.Base.{
  ℕ, zero, suc, ◌+◌, ◌*◌, ◌^◌, ◌<◌, ◌≡◌, ◌≢◌, sym, arith, List, [], ◌∷◌, ◌==◌, if◌then◌else◌,
  Option, none, some, true, false,
}
use octave_os.Idt.{
  IdtDesc, Idt, Handler, kernel_cs, num_vec, set_idt_desc, clear_idt, vectors, fill_idt, set_idt,
}

-- The byte of a gate that holds its type, privilege and presence.
abbrev pub access : IdtDesc → ℕ
access d =
    0x80 * d.present
    + 0x20 * d.dpl
    + 0x10 * d.reserved0
    + 8 * d.size
    + 4 * d.reserved1
    + 2 * d.reserved2
    + d.reserved3

-- The address that a gate leads to.
abbrev pub offset : IdtDesc → ℕ
offset d = d.offset_31_16 * 2 ^ 16 + d.offset_15_00

-- The last handler that a list gives to the vector, and `acc` if there is none.
unfoldable pub handler_of : Option Handler → List (ℕ × Handler) → (vec : ℕ) → Option Handler
handler_of acc [] vec = acc
handler_of acc ((v, h) ∷ rest) vec = handler_of (if v == vec then some h else acc) rest vec

-- A gate without a handler is not present; one with a handler leads to it: a 32-bit interrupt gate of
-- the kernel, and for the system calls' vector a trap gate that user programs may call.
abbrev pub IsGate : (address : Handler → ℕ) → (vec : ℕ) → Option Handler → IdtDesc → Type 0
IsGate address vec none d = (d.present ≡ 0) × (d.seg_selector ≡ kernel_cs)
IsGate address vec (some h) d =
    (access d ≡ (if vec == 0x80 then 0xef else 0x8e))
    × (offset d ≡ address h)
    × (d.seg_selector ≡ kernel_cs)

module _ (address : Handler → ℕ) (nonzero : (h : Handler) → address h ≢ 0) where
  set_idt_desc-other :
      (v func vec : ℕ) (idt : Idt) → v ≢ vec → set_idt_desc v func idt vec ≡ idt vec
  unfolding set_idt_desc
  set_idt_desc-other v func vec idt ne = ground arith

  set_idt_desc-null : (vec : ℕ) (idt : Idt) → IsGate address vec none (set_idt_desc vec 0 idt vec)
  unfolding set_idt_desc
  set_idt_desc-null vec idt = (ground arith, ground arith)

  set_idt_desc-some :
      (vec : ℕ) (h : Handler) (idt : Idt)
      → IsGate address vec (some h) (set_idt_desc vec (address h) idt vec)
  unfolding set_idt_desc
  set_idt_desc-some vec h idt = let nz = nonzero h in (ground arith, ground arith, ground arith)

  clear_idt-IsGate :
      (n i vec : ℕ) (idt : Idt)
      → vec < i + n
      → (vec < i → IsGate address vec none (idt vec))
      → IsGate address vec none (clear_idt n i idt vec)
  unfolding clear_idt
  clear_idt-IsGate zero i vec idt small before = before (omega arith)
  clear_idt-IsGate (suc n) i vec idt small before =
      clear_idt-IsGate n (i + 1) vec (set_idt_desc i 0 idt) (omega arith) (λ l.
        elim (ℕ_discrete i vec) [
          | yes e ↦ rw e (set_idt_desc-null vec idt)
          | no ne ↦ rw (set_idt_desc-other i 0 vec idt ne) (before (omega arith))
        ])

  set_idt_desc-IsGate :
      (v vec : ℕ) (h : Handler) (acc : Option Handler) (idt : Idt)
      → IsGate address vec acc (idt vec)
      → IsGate address vec (if v == vec then some h else acc) (set_idt_desc v (address h) idt vec)
  set_idt_desc-IsGate v vec h acc idt g = elim (ℕ_discrete v vec) [
    | yes e ↦
        let at : (v == vec) ≡ true = ground arith in
        subst
          (λ b. IsGate address vec (if b then some h else acc) (set_idt_desc v (address h) idt vec))
          (sym at)
          (subst (λ w. IsGate address vec (some h) (set_idt_desc w (address h) idt vec)) (sym e)
            (set_idt_desc-some vec h idt))
    | no ne ↦
        let off : (v == vec) ≡ false = ground arith in
        subst
          (λ b. IsGate address vec (if b then some h else acc) (set_idt_desc v (address h) idt vec))
          (sym off)
          (subst (IsGate address vec acc) (sym (set_idt_desc-other v (address h) vec idt ne)) g)
  ]

  fill_idt-IsGate :
      (vs : List (ℕ × Handler)) (acc : Option Handler) (vec : ℕ) (idt : Idt)
      → IsGate address vec acc (idt vec)
      → IsGate address vec (handler_of acc vs vec) (fill_idt address vs idt vec)
  unfolding handler_of fill_idt
  fill_idt-IsGate [] acc vec idt g = g
  fill_idt-IsGate ((v, h) ∷ rest) acc vec idt g =
      fill_idt-IsGate rest (if v == vec then some h else acc) vec (set_idt_desc v (address h) idt)
        (set_idt_desc-IsGate v vec h acc idt g)

  -- After `set_idt` each of the 256 vectors that the list names leads to its handler, and no other is
  -- present: the access byte is 0x8e, that of a present 32-bit interrupt gate of privilege 0, but 0xef
  -- for vector 0x80, a trap gate of privilege 3; the two halves of the offset are the handler's
  -- address, and the segment is the kernel's. No handler is at address 0.
  pub set_idt-IsGate :
      (idt : Idt) (vec : ℕ)
      → vec < num_vec
      → IsGate address vec (handler_of none vectors vec) (set_idt address idt vec)
  unfolding set_idt
  set_idt-IsGate idt vec small =
      fill_idt-IsGate vectors none vec (clear_idt num_vec 0 idt)
        (clear_idt-IsGate num_vec 0 vec idt (omega arith) (λ l. absurd (omega arith)))
