-- ===== src/Fish/Blink/Chain.antt =====
-- The list of blinking characters of fish/blink.S: its shape, and what keeps it.
use octave_os.Base.{
  ℕ, zero, suc, ◌+◌, ◌-◌, ◌<◌, ◌≡◌, ◌≢◌, ◌⊎◌, inl, inr, refl, sym, ap, ◌∙◌, arith, List, [], ◌∷◌,
  ◌==◌, ==_iff, leb, true, false, if◌then◌else◌, length, update, update_self, minus_one, done,
  Bool-cases, Bool, ◌≤◌, ◌*◌,
}
use mathlib.Core.Path.{subst}
use octave_os.Fish.Blink.{
  BlinkStruct, Blinks, num_structs, struct_at, find_struct, mp1_malloc, add_at, mp1_ioctl_add,
  tick_struct, tick_from, mp1_rtc_tasklet,
}

-- From pointer `p` on the structures `ps` are linked, up to the null pointer, and none of them has the
-- place 0, which marks a free one. A list that comes back to itself has no such `ps`.
pub data Chain (array : ℕ → BlinkStruct) : (p : ℕ) → List ℕ → Type 0 where
  chain_end : Chain array 0 []
  chain_next :
      {p : ℕ} {ps : List ℕ}
      → p ≢ 0
      → (array (p - 1)).location ≢ 0
      → Chain array (array (p - 1)).next ps
      → Chain array p (p ∷ ps)

-- The list of the program.
abbrev pub HasChain : Blinks → List ℕ → Type 0
HasChain b ps = Chain b.blink_array b.mp1_list_head ps

-- A structure that is free is in no list, so it can be written.
Chain-update :
    (array : ℕ → BlinkStruct) (q : ℕ) (item : BlinkStruct) {p : ℕ} {ps : List ℕ}
    → (array q).location ≡ 0
    → Chain array p ps
    → Chain (update array q item) p ps
Chain-update array q item free chain_end = chain_end
Chain-update array q item free (chain_next {p = p} {ps = ps} some_p used rest) =
    let other : (q == p - 1) ≡ false = elim (Bool-cases (q == p - 1)) [
      | inl e ↦ absurd (used (ap (λ i. (array i).location) (sym ((==_iff q (p - 1)).0 e)) ∙ free))
      | inr ne ↦ ne
    ] in
    let same : update array q item (p - 1) ≡ array (p - 1) =
      ap (λ t. if t then item else array (p - 1)) other in
    chain_next some_p (λ e. used (sym (ap (λ (s : BlinkStruct). s.location) same) ∙ e))
      (subst (λ (s : BlinkStruct). Chain (update array q item) s.next ps) (sym same)
        (Chain-update array q item free rest))

Chain-front :
    (array : ℕ → BlinkStruct) (p : ℕ) (item : BlinkStruct) (ps : List ℕ)
    → p ≢ 0
    → (array (p - 1)).location ≡ 0
    → item.location ≢ 0
    → Chain array item.next ps
    → Chain (update array (p - 1) item) p (p ∷ ps)
Chain-front array p item ps some_p free place chain =
    let at = update_self array (p - 1) item in
    chain_next some_p (λ e. place (sym (ap (λ (s : BlinkStruct). s.location) at) ∙ e))
      (subst (λ (s : BlinkStruct). Chain (update array (p - 1) item) s.next ps) (sym at)
        (Chain-update array (p - 1) item free chain))

-- A pointer to the first free one of the `n` structures from `i` on, or null where none is free.
abbrev IsFound : (ℕ → BlinkStruct) → (i n p : ℕ) → Type 0
IsFound array i n p =
    ((p ≡ 0) × ((j : ℕ) → i ≤ j → j < i + n → (array j).location ≢ 0))
    ⊎ ((q : ℕ) × (p ≡ q + 1)
        × (i ≤ q)
        × (q < i + n)
        × ((array q).location ≡ 0)
        × ((j : ℕ) → i ≤ j → j < q → (array j).location ≢ 0))

used_from :
    (array : ℕ → BlinkStruct) (i : ℕ)
    → (array i).location ≢ 0
    → (j : ℕ) → i ≤ j
    → (i + 1 ≤ j → (array j).location ≢ 0)
    → (array j).location ≢ 0
used_from array i used j lo later = elim (Bool-cases (i == j)) [
  | inl e ↦ subst (λ m. (array m).location ≢ 0) ((==_iff i j).0 e) used
  | inr ne ↦ later (ground arith)
]

ℕ_order : (m n : ℕ) → (m < n) ⊎ (m ≡ n) ⊎ (n < m)
ℕ_order m n = elim (Bool-cases (m == n)) [
  | inl e ↦ inr (inl ((==_iff m n).0 e))
  | inr ne ↦ elim (Bool-cases (leb m n)) [
    | inl le ↦ inl (ground arith)
    | inr gt ↦ inr (inr (ground arith))
  ]
]

ite_same : {A : Type 0} (t : Bool) (x : A) → (if t then x else x) ≡ x
ite_same true x = refl
ite_same false x = refl

find_struct_lem : (array : ℕ → BlinkStruct) (i n : ℕ) → IsFound array i n (find_struct array i n)
unfolding find_struct
find_struct_lem array i zero = inl (refl, λ j lo hi. absurd (omega arith))
find_struct_lem array i (suc n) = elim (Bool-cases ((array i).location == 0)) [
  | inl e ↦ rw e (
      inr (
        i,
        refl,
        omega arith,
        omega arith,
        (==_iff (array i).location 0).0 e,
        λ j lo hi. absurd (omega arith),
      ))
  | inr e ↦
      let used : (array i).location ≢ 0 = ground arith in
      rw e (elim (find_struct_lem array (i + 1) n) [
        | inl (null, none) ↦
            inl (null, λ j lo hi. used_from array i used j lo (λ lo'. none j lo' (omega arith)))
        | inr (q, at, lo, hi, free, first) ↦ inr (
          q,
          at,
          omega arith,
          omega arith,
          free,
          λ j lo hi. used_from array i used j lo (λ lo'. first j lo' hi),
        )
      ])
]

-- What `mp1_ioctl_add` has made of a list `ps`. Where the place is not on the screen, or none of the
-- structures is free, it returns -1 and has changed nothing. Where the place is on the screen and a
-- structure is free, it returns 0, and the first free one stands at the list's front, holds the
-- character, is on and counts down from `on_length`; the character is on the screen at its place.
pub record Added (user : BlinkStruct) (b : Blinks) (ps : List ℕ) (r : ℕ × Blinks) : Type 0 where
  pub off_screen : num_structs ≤ user.location → r ≡ (minus_one, b)
  pub none_free : ((j : ℕ) → j < num_structs → (b.blink_array j).location ≢ 0) → r ≡ (minus_one, b)
  pub in_front :
      (q : ℕ)
      → user.location < num_structs
      → q < num_structs
      → (b.blink_array q).location ≡ 0
      → ((j : ℕ) → j < q → (b.blink_array j).location ≢ 0)
      → (r.0 ≡ 0)
        × HasChain r.1 ((q + 1) ∷ ps)
        × (struct_at r.1 (q + 1)
            ≡ record user { status = 1; countdown = user.on_length; next = b.mp1_list_head })
        × (r.1.video (2 * user.location) ≡ user.on_char)

module _ (user : BlinkStruct) (b : Blinks) (ps : List ℕ) where
  -- A pointer to a free structure is not null, and the two ways to find one agree.
  malloc-first :
      (q : ℕ)
      → q < num_structs
      → (b.blink_array q).location ≡ 0
      → ((j : ℕ) → j < q → (b.blink_array j).location ≢ 0)
      → mp1_malloc b ≡ q + 1
  unfolding mp1_malloc
  malloc-first q small free first = elim (find_struct_lem b.blink_array 0 num_structs) [
    | inl (null, none) ↦ absurd (none q (omega arith) (omega arith) free)
    | inr (q', at, lo, hi, free', first') ↦ elim (ℕ_order q q') [
      | inl lt ↦ absurd (first' q (omega arith) lt free)
      | inr (inl e) ↦ at ∙ ap (λ m. m + 1) (sym e)
      | inr (inr gt) ↦ absurd (first q' gt free')
    ]
  ]

  malloc-null : ((j : ℕ) → j < num_structs → (b.blink_array j).location ≢ 0) → mp1_malloc b ≡ 0
  unfolding mp1_malloc
  malloc-null none = elim (find_struct_lem b.blink_array 0 num_structs) [
    | inl (null, _) ↦ null
    | inr (q, at, lo, hi, free, first) ↦ absurd (none q (omega arith) free)
  ]

  add_at-front :
      (q : ℕ)
      → user.location < num_structs
      → (b.blink_array q).location ≡ 0
      → HasChain b ps
      → user.location ≢ 0
      → ((add_at (q + 1) user b).0 ≡ 0)
        × HasChain (add_at (q + 1) user b).1 ((q + 1) ∷ ps)
        × (struct_at (add_at (q + 1) user b).1 (q + 1)
            ≡ record user { status = 1; countdown = user.on_length; next = b.mp1_list_head })
        × ((add_at (q + 1) user b).1.video (2 * user.location) ≡ user.on_char)
  unfolding add_at
  add_at-front q on free chain some_place =
      let shown : leb num_structs user.location ≡ false = ground arith in
      let given : (q + 1 == 0) ≡ false = ground arith in
      let at : (b.blink_array (q + 1 - 1)).location ≡ 0 =
        ap (λ j. (b.blink_array j).location) (omega arith) ∙ free in
      rw (shown, given)
        (
          refl,
          Chain-front b.blink_array (q + 1) _ ps (λ z. omega arith) at some_place chain,
          update_self b.blink_array (q + 1 - 1) _,
          update_self b.video (2 * user.location) user.on_char,
        )

  -- `mp1_ioctl_add` of a character at a place other than 0, to a list that ends, leaves a list that
  -- ends. Where the place is not on the screen, or none of the structures is free, it returns -1 and
  -- changes nothing. Where the place is on the screen and a structure is free, it returns 0: the first
  -- free structure stands in front of those that were in the list, holds the character, is on and
  -- counts down from `on_length`, and the character is shown at its place.
  pub mp1_ioctl_add-Added :
      HasChain b ps → user.location ≢ 0 → Added user b ps (mp1_ioctl_add user b)
  unfolding mp1_ioctl_add add_at
  mp1_ioctl_add-Added chain some_place = record {
    off_screen =
        λ off. (let yes : leb num_structs user.location ≡ true = ground arith in rw yes refl);
    none_free =
        λ none. rw (malloc-null none) (ite_same (leb num_structs user.location) (minus_one, b));
    in_front = λ q on small free first.
        rw (malloc-first q small free first) (add_at-front q on free chain some_place);
  }

-- The places and the links of all structures are the same.
pub record SameLinks (a a' : ℕ → BlinkStruct) : Type 0 where
  pub location : (i : ℕ) → (a' i).location ≡ (a i).location
  pub next : (i : ℕ) → (a' i).next ≡ (a i).next

SameLinks-refl : (a : ℕ → BlinkStruct) → SameLinks a a
SameLinks-refl a = record { location = λ i. refl; next = λ i. refl }

SameLinks-trans : (a a' a'' : ℕ → BlinkStruct) → SameLinks a a' → SameLinks a' a'' → SameLinks a a''
SameLinks-trans a a' a'' h k = record {
  location = λ i. k.location i ∙ h.location i;
  next = λ i. k.next i ∙ h.next i;
}

Chain-SameLinks :
    (a a' : ℕ → BlinkStruct) {p : ℕ} {ps : List ℕ} → SameLinks a a' → Chain a p ps → Chain a' p ps
Chain-SameLinks a a' same chain_end = chain_end
Chain-SameLinks a a' same (chain_next {p = p} {ps = ps} some_p used rest) =
    chain_next some_p (λ e. used (sym (same.location (p - 1)) ∙ e))
      (subst (λ q. Chain a' q ps) (sym (same.next (p - 1))) (Chain-SameLinks a a' same rest))

tick_struct-SameLinks : (p : ℕ) (b : Blinks) → SameLinks b.blink_array (tick_struct p b).blink_array
unfolding tick_struct
tick_struct-SameLinks p b = record { location = λ i. ground arith; next = λ i. ground arith }

tick_struct-head : (p : ℕ) (b : Blinks) → (tick_struct p b).mp1_list_head ≡ b.mp1_list_head
unfolding tick_struct
tick_struct-head p b = ground arith

tick_from-SameLinks :
    (fuel p : ℕ) (b : Blinks) (ps : List ℕ)
    → Chain b.blink_array p ps
    → length ps < fuel
    → (b' : Blinks) × (tick_from fuel p b ≡ done b')
      × SameLinks b.blink_array b'.blink_array
      × (b'.mp1_list_head ≡ b.mp1_list_head)
unfolding tick_from
tick_from-SameLinks zero p b ps chain enough = absurd (omega arith)
tick_from-SameLinks (suc fuel) p b [] chain_end enough =
    (b, refl, SameLinks-refl b.blink_array, refl)
tick_from-SameLinks (suc fuel) p b (q ∷ ps) (chain_next some_p used rest) enough =
    let b1 = tick_struct p b in
    let same = tick_struct-SameLinks p b in
    let rest1 =
      subst (λ r. Chain b1.blink_array r ps) (sym (same.next (p - 1)))
        (Chain-SameLinks b.blink_array b1.blink_array same rest) in
    let (b', run, after, head) =
      tick_from-SameLinks fuel (struct_at b1 p).next b1 ps rest1 (omega arith) in
    let more : (p == 0) ≡ false = ground arith in
    (
      b',
      rw more run,
      SameLinks-trans b.blink_array b1.blink_array b'.blink_array same after,
      head ∙ tick_struct-head p b,
    )

-- At each tick of the clock the tasklet goes through the list and ends, whatever the characters do: a
-- list that ends is still the same list afterwards. The fuel is more than its length.
pub mp1_rtc_tasklet-HasChain :
    (fuel : ℕ) (b : Blinks) (ps : List ℕ)
    → HasChain b ps
    → length ps < fuel
    → (b' : Blinks) × (mp1_rtc_tasklet fuel b ≡ done b') × HasChain b' ps
unfolding mp1_rtc_tasklet
mp1_rtc_tasklet-HasChain fuel b ps chain enough =
    let (b', run, same, head) = tick_from-SameLinks fuel b.mp1_list_head b ps chain enough in
    (
      b',
      run,
      subst (λ q. Chain b'.blink_array q ps) (sym head)
          (Chain-SameLinks b.blink_array b'.blink_array same chain),
    )
