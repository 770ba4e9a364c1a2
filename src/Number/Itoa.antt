-- ===== src/Number/Itoa.antt =====
-- What `itoa` of student-distrib/lib.c writes: the numeral of the number.
use mathlib.Core.List.{reverse, reverse-cons}
use mathlib.Core.Path.{ap₂, subst}
use native.Mathlib.Nat.{mod-lt}
use native.Mathlib.Decide.{ℕ_discrete}
use octave_os.Base.{
  ℕ, zero, suc, ◌+◌, ◌-◌, ◌*◌, ◌/◌, ◌%◌, ◌^◌, ◌<◌, ◌≤◌, ◌≡◌, ◌≢◌, refl, ◌∙◌, ap, sym, arith, List,
  [], ◌∷◌, ◌++◌, length, false, ltb, leb, ◌==◌, ◌&&◌, if◌then◌else◌, Bool-cases, inl, inr, update,
  update_self, update_ne, ◌⊎◌, done, ◌>>=◌,
}
use octave_os.Str.{Bytes}
use octave_os.FileSys.{read_range}
use octave_os.FileSys.Blocks.{read_range-append}
use octave_os.Number.{lookup_size, digit, put_digits, strrev, itoa, itoa_with, itoa_fuel}
use octave_os.Number.Reverse.{IsString, strrev_lem}
use octave_os.Number.Digits.{
  digits, digit_lem, halves, length-digits, length-reverse, number, numeral_with, numeral,
  number-numeral_with,
}

-- What the loop leaves: the digits from `i` on, and the memory elsewhere.
record Written (s : Bytes) (i : ℕ) (ds : List ℕ) (s' : Bytes) : Type 0 where
  range : read_range s' i (length ds) ≡ ds
  before : (j : ℕ) → j < i → s' j ≡ s j
  behind : (j : ℕ) → i + length ds ≤ j → s' j ≡ s j
  no_nul : (j : ℕ) → i ≤ j → j < i + length ds → s' j ≢ 0

put_digits-Written :
    (f v r : ℕ) (s : Bytes) (i n : ℕ)
    → 2 ≤ r
    → r ≤ 36
    → v < 2 ^ n
    → n < f
    → (s' : Bytes) × (put_digits f v r s i ≡ done (i + length (digits f r v), s'))
      × Written s i (digits f r v) s'
unfolding put_digits digits read_range
put_digits-Written zero v r s i n lo hi small fuel = absurd (omega arith)
put_digits-Written (suc f) v r s i zero lo hi small fuel =
    let e : v ≡ 0 = omega arith in
    rw e (
      s,
      ap (λ m. done (m, s)) (omega arith),
      record {
        range = refl;
        before = λ j h. refl;
        behind = λ j h. refl;
        no_nul = λ j a b. absurd (omega arith);
      },
    )
put_digits-Written (suc f) v r s i (suc n) lo hi small fuel = elim (Bool-cases (v == 0)) [
  | inl e ↦ rw e (
    s,
    ap (λ m. done (m, s)) (omega arith),
    record {
      range = refl;
      before = λ j h. refl;
      behind = λ j h. refl;
      no_nul = λ j a b. absurd (omega arith);
    },
  )
  | inr ne ↦
      let radix : (r == 0) ≡ false = ground arith in
      let below = mod-lt v {m = r} (omega arith) in
      let inside : leb lookup_size (v % r) ≡ false = ground (arith, below) in
      let d = digit_lem (v % r) (omega (arith, below)) in
      let s1 = update s i (digit (v % r)) in
      let (s', run, w) =
        put_digits-Written f (v / r) r s1 (i + 1) n lo hi (halves v r (2 ^ n) lo (omega arith))
          (omega arith) in
      let first : s' i ≡ digit (v % r) = w.before i (omega arith) ∙ ground arith in
      let n' = length (digits f r (v / r)) in
      rw (ne, radix)
        (rw inside (
          s',
          run ∙ ap (λ m. done (m, s')) (omega arith),
          record {
            range = ap₂ ◌∷◌ first w.range;
            before = λ j h. w.before j (omega arith) ∙ ground arith;
            behind = λ j h. w.behind j (omega arith) ∙ ground arith;
            no_nul = λ j a b. no_nul n' j a b first d.1 w.no_nul;
          },
        ))
]
  where
    no_nul :
        {s' : Bytes} {i c : ℕ} (n j : ℕ)
        → i ≤ j
        → j < i + suc n
        → s' i ≡ c
        → c ≢ 0
        → ((l : ℕ) → i + 1 ≤ l → l < i + 1 + n → s' l ≢ 0)
        → s' j ≢ 0
    no_nul {s'} {i} n j a b first nz rest = elim (ℕ_discrete j i) [
      | yes e ↦ λ z. nz (sym first ∙ ap s' (sym e) ∙ z)
      | no ne ↦ rest j (omega arith) (omega arith)
    ]

read_range_turned :
    (s s' : Bytes) (a b n : ℕ)
    → ((j : ℕ) → j < n → s' (a + j) ≡ s (b + (n - 1 - j)))
    → read_range s' a n ≡ reverse (read_range s b n)
unfolding read_range
read_range_turned s s' a b zero h = refl
read_range_turned s s' a b (suc n) h =
    let last : s' (a + n) ≡ s b = h n (omega arith) ∙ ap s (omega arith) in
    let ih = read_range_turned s s' a (b + 1) n (λ j l. h j (omega arith) ∙ ap s (omega arith)) in
    let grow : suc n ≡ n + 1 = omega arith in
    ap (read_range s' a) grow
    ∙ read_range-append s' a n 1
    ∙ ap₂ (λ xs c. xs ++ (c ∷ [])) ih last
    ∙ sym (reverse-cons (s b) (read_range s (b + 1) n))

-- What `itoa` leaves at `a`: the numeral as a string, and the other bytes as they were.
pub record Printed (s : Bytes) (a : ℕ) (cs : List ℕ) (s' : Bytes) : Type 0 where
  pub string : IsString s' a (length cs)
  pub text : read_range s' a (length cs) ≡ cs
  pub others : (j : ℕ) → (j < a) ⊎ (a + length cs < j) → s' j ≡ s j

-- The digits, their NUL, and the reversal.
Printed-turned :
    (s s1 s3 : Bytes) (a n : ℕ) (ds : List ℕ)
    → length ds ≡ n
    → Written s a ds s1
    → ((j : ℕ)
        → s3 j ≡ (
            if leb a j && ltb j (a + n)
            then update s1 (a + n) 0 (2 * a + n - 1 - j)
            else update s1 (a + n) 0 j))
    → Printed s a (reverse ds) s3
Printed-turned s s1 s3 a n ds len w at =
    let turned_len : length (reverse ds) ≡ n = length-reverse ds ∙ len in
    record {
      string = subst (IsString s3 a) (sym turned_len) (record {
        bytes =
            λ i h z. w.no_nul (a + (n - 1 - i)) (omega arith) (omega arith) (sym (inner i h) ∙ z);
        nul = at (a + n) ∙ ground arith;
      });
      text =
          ap (read_range s3 a) turned_len
          ∙ read_range_turned s1 s3 a a n inner
          ∙ ap (λ m. reverse (read_range s1 a m)) (sym len)
          ∙ ap reverse w.range;
      others = λ j h.
          at j ∙ outer j (elim h [ inl lt ↦ inl lt | inr lt ↦ inr (omega (arith, turned_len)) ]);
    }
  where
    inner : (j : ℕ) → j < n → s3 (a + j) ≡ s1 (a + (n - 1 - j))
    inner j h =
        let place : 2 * a + n - 1 - (a + j) ≡ a + (n - 1 - j) = omega arith in
        at (a + j) ∙ ground (arith, ap s1 place)

    outer :
        (j : ℕ)
        → (j < a) ⊎ (a + n < j)
        → (if leb a j && ltb j (a + n)
            then update s1 (a + n) 0 (2 * a + n - 1 - j)
            else update s1 (a + n) 0 j)
          ≡ s j
    outer j (inl h) = ground (arith, w.before j)
    outer j (inr h) = ground (arith, w.behind j)

itoa-digits :
    (f n v r : ℕ) (s : Bytes) (a : ℕ)
    → 2 ≤ r
    → r ≤ 36
    → v < 2 ^ n
    → n < f
    → v ≢ 0
    → (s' : Bytes) × (itoa_with f v s a r ≡ done s') × Printed s a (reverse (digits f r v)) s'
unfolding itoa_with
itoa-digits f n v r s a lo hi small fuel ne =
    let nz : (v == 0) ≡ false = ground arith in
    let ds = digits f r v in
    let (s1, run, w) = put_digits-Written f v r s a n lo hi small fuel in
    let s2 = update s1 (a + length ds) 0 in
    let string : IsString s2 a (length ds) = record {
      bytes = λ i h z.
          w.no_nul (a + i) (omega arith) (omega arith)
            (sym (update_ne s1 (a + length ds) (a + i) 0 (λ e. omega arith)) ∙ z);
      nul = update_self s1 (a + length ds) 0;
    } in
    let (s3, turn, at) =
      strrev_lem (f + 1) s2 a (length ds) string (omega (arith, length-digits f r v n lo small)) in
    rw nz (
      s3,
      ap (λ o. o >>= λ (end, s'). strrev (f + 1) (update s' end 0) a) run ∙ turn,
      Printed-turned s s1 s3 a (length ds) ds refl w at,
    )

itoa-zero :
    (f r : ℕ) (s : Bytes) (a : ℕ)
    → (s' : Bytes) × (itoa_with f 0 s a r ≡ done s') × Printed s a (b'0' ∷ []) s'
unfolding itoa_with read_range
itoa-zero f r s a = (
  update (update s a b'0') (a + 1) 0,
  refl,
  record {
    string = record { bytes = λ i h. ground arith; nul = ground arith };
    text = ground arith;
    others = λ j h. ground arith;
  },
)

itoa_with-Printed :
    (f n v r : ℕ) (s : Bytes) (a : ℕ)
    → 2 ≤ r
    → r ≤ 36
    → v < 2 ^ n
    → n < f
    → (s' : Bytes) × (itoa_with f v s a r ≡ done s') × Printed s a (numeral_with f r v) s'
unfolding numeral_with
itoa_with-Printed f n v r s a lo hi small fuel = elim (ℕ_discrete v 0) [
  | yes e ↦ rw e (itoa-zero f r s a)
  | no ne ↦
      let nz : (v == 0) ≡ false = ground arith in
      rw nz (itoa-digits f n v r s a lo hi small fuel ne)
]

-- `itoa` to a radix from 2 to 36 returns, with the numeral of a 32-bit number as a string at the
-- place that it is given, and the other bytes as they were.
pub itoa-Printed :
    (v r : ℕ) (s : Bytes) (a : ℕ)
    → 2 ≤ r
    → r ≤ 36
    → v < 2 ^ 32
    → (s' : Bytes) × (itoa v s a r ≡ done s') × Printed s a (numeral r v) s'
unfolding numeral itoa
itoa-Printed v r s a lo hi small = itoa_with-Printed itoa_fuel 32 v r s a lo hi small (omega arith)

-- `itoa` to a radix from 2 to 36 is undone by reading: it returns, and the string that it leaves, of
-- some length up to its NUL, is a numeral whose value to that radix is the 32-bit number. No byte in
-- front of the string or behind its NUL changes.
pub number-itoa :
    (v r : ℕ) (s : Bytes) (a : ℕ)
    → 2 ≤ r
    → r ≤ 36
    → v < 2 ^ 32
    → (n : ℕ) × (s' : Bytes) × (itoa v s a r ≡ done s')
      × IsString s' a n
      × (number r (read_range s' a n) ≡ v)
      × ((j : ℕ) → (j < a) ⊎ (a + n < j) → s' j ≡ s j)
unfolding numeral
number-itoa v r s a lo hi small =
    let (s', run, p) = itoa-Printed v r s a lo hi small in
    (
      length (numeral r v),
      s',
      run,
      p.string,
      ap (number r) p.text ∙ number-numeral_with itoa_fuel v r lo hi (omega arith),
      p.others,
    )
