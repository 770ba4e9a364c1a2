-- ===== src/Fish/Blink.antt =====
-- The blinking characters of fish/blink.S and the functions of fish/fish.c on their memory.
--
-- `blink_array` is a function of the index; a pointer into it is the index plus one, and 0 is the null
-- pointer. `video` is the page that `vmem_base_addr` leads to, by the distance from its start.
pub mod Chain
use octave_os.Base.{
  ℕ, zero, suc, ◌+◌, ◌-◌, ◌*◌, ◌/◌, ◌%◌, ◌^◌, Bool, true, false, ltb, leb, ◌==◌, if◌then◌else◌,
  minus_one, update, Option, none, some, Outcome, done, fault, out_of_fuel, out_of_bounds, ◌>>=◌,
}
use octave_os.Str.{Bytes}

-- `struct mp1_blink_struct` of blink.h.
pub record BlinkStruct : Type 0 where
  pub location : ℕ
  pub on_char : ℕ
  pub off_char : ℕ
  pub on_length : ℕ
  pub off_length : ℕ
  pub countdown : ℕ
  pub status : ℕ
  pub next : ℕ

abbrev pub zero_struct : BlinkStruct
zero_struct = record {
  location = 0;
  on_char = 0;
  off_char = 0;
  on_length = 0;
  off_length = 0;
  countdown = 0;
  status = 0;
  next = 0;
}

pub record Blinks : Type 0 where
  pub blink_array : ℕ → BlinkStruct
  pub mp1_list_head : ℕ
  pub video : Bytes

-- The number of structures: a place of the screen each.
abbrev pub num_structs : ℕ
num_structs = 80 * 25

-- The `ece391_memset` of `main`.
unfoldable pub cleared : Blinks → Blinks
cleared b = record b {
  blink_array = λ i. if ltb i num_structs then zero_struct else b.blink_array i;
}

-- The structure behind a pointer, and it replaced.
abbrev pub struct_at : Blinks → ℕ → BlinkStruct
struct_at b p = b.blink_array (p - 1)

abbrev pub put_struct : ℕ → BlinkStruct → Blinks → Blinks
put_struct p s b = record b { blink_array = update b.blink_array (p - 1) s }

-- `mp1_poke` of a character: the code of the place is shifted by one.
abbrev pub poke_char : (location c : ℕ) → Blinks → Blinks
poke_char location c b = record b { video = update b.video (2 * location) c }

-- `mp1_malloc` at `i`, with `n` rounds left.
unfoldable pub find_struct : (ℕ → BlinkStruct) → (i n : ℕ) → ℕ
find_struct array i zero = 0
find_struct array i (suc n) =
    let rest = find_struct array (i + 1) n in if (array i).location == 0 then i + 1 else rest

unfoldable pub mp1_malloc : Blinks → ℕ
unfolding find_struct
mp1_malloc b = find_struct b.blink_array 0 num_structs

unfoldable pub mp1_free : (p : ℕ) → Blinks → Blinks
mp1_free p b = put_struct p zero_struct b

-- The part of `mp1_ioctl_add` behind the call of `mp1_malloc`, which returned `p`, under the test of the
-- place, which stands before it: the copy is put at the front of the list.
unfoldable pub add_at : (p : ℕ) → BlinkStruct → Blinks → ℕ × Blinks
add_at p user b =
    let item = record user { status = 1; countdown = user.on_length; next = b.mp1_list_head } in
    if leb num_structs user.location then (minus_one, b) else if p == 0 then (minus_one, b) else (
      0,
      poke_char user.location user.on_char (record (put_struct p item b) { mp1_list_head = p }),
    )

unfoldable pub mp1_ioctl_add : BlinkStruct → Blinks → ℕ × Blinks
unfolding add_at
mp1_ioctl_add user b = add_at (mp1_malloc b) user b

-- The loop of `mp1_find_helper` at a pointer.
unfoldable pub find_from : (fuel location p : ℕ) → Blinks → Outcome ℕ
find_from zero location p b = fault out_of_fuel
find_from (suc fuel) location p b =
    let rest = find_from fuel location (struct_at b p).next b in
    if p == 0 then done 0 else if (struct_at b p).location == location then done p else rest

unfoldable pub mp1_find_helper : (fuel location : ℕ) → Blinks → Outcome ℕ
unfolding find_from
mp1_find_helper fuel location b = find_from fuel (location % 2 ^ 16) b.mp1_list_head b

-- `remove_find_prev`: `q` is the structure whose `next` is looked at, 0 for the head of the list. A
-- null pointer would be followed.
unfoldable pub unlink : (fuel p q : ℕ) → Blinks → Outcome Blinks
unlink zero p q b = fault out_of_fuel
unlink (suc fuel) p q b =
    let here = if q == 0 then b.mp1_list_head else (struct_at b q).next in
    let behind = (struct_at b p).next in
    let unlinked =
      if q == 0
      then record b { mp1_list_head = behind }
      else put_struct q (record (struct_at b q) { next = behind }) b in
    let rest = unlink fuel p here b in
    if here == p then done unlinked else if here == 0 then fault out_of_bounds else rest

unfoldable pub mp1_ioctl_remove : (fuel location : ℕ) → Blinks → Outcome (ℕ × Blinks)
unfolding mp1_find_helper unlink mp1_free
mp1_ioctl_remove fuel location b = mp1_find_helper fuel location b >>= λ p.
    (let removed = unlink fuel p 0 b >>= λ b1. done (0, mp1_free p b1) in
      if p == 0 then done (minus_one, b) else removed)

-- The second takes over the lengths and the state of the first. `cmovl` behind `testb` never moves, so
-- the character shown is `off_char`.
unfoldable pub mp1_ioctl_sync : (fuel arg : ℕ) → Blinks → Outcome (ℕ × Blinks)
unfolding mp1_find_helper
mp1_ioctl_sync fuel arg b = mp1_find_helper fuel (arg / 2 ^ 16) b >>= λ p.
    (let second = mp1_find_helper fuel (arg % 2 ^ 16) b >>= λ q.
    (let s = struct_at b p in
      let t = record (struct_at b q) {
        on_length = s.on_length;
        off_length = s.off_length;
        countdown = s.countdown;
        status = s.status;
      } in
      if q == 0
      then done (minus_one, b)
      else done (0, poke_char t.location t.off_char (put_struct q t b))) in
      if p == 0 then done (minus_one, b) else second)

-- The structure is copied to the caller.
unfoldable pub mp1_ioctl_find : (fuel location : ℕ) → Blinks → Outcome (ℕ × Option BlinkStruct)
unfolding mp1_find_helper
mp1_ioctl_find fuel location b = mp1_find_helper fuel location b >>= λ p.
    done (if p == 0 then (minus_one, none) else (0, some (struct_at b p)))

-- `jg` behind `decw`: a 16-bit number above 0.
abbrev pub is_positive : ℕ → Bool
is_positive w = if w == 0 then false else ltb w (2 ^ 15)

-- A structure after a tick that does not toggle it, and what a toggle does.
unfoldable pub tick_struct : (p : ℕ) → Blinks → Blinks
tick_struct p b =
    let s = struct_at b p in
    let down = (s.countdown + (2 ^ 16 - 1)) % 2 ^ 16 in
    if is_positive down
    then put_struct p (record s { countdown = down }) b
    else if s.status % 2 == 0
    then poke_char s.location s.on_char
        (put_struct p (record s { countdown = s.on_length; status = s.status + 1 }) b)
    else poke_char s.location s.off_char
        (put_struct p (record s { countdown = s.off_length; status = s.status - 1 }) b)

-- `tasklet_loop` at a pointer.
unfoldable pub tick_from : (fuel p : ℕ) → Blinks → Outcome Blinks
unfolding tick_struct
tick_from zero p b = fault out_of_fuel
tick_from (suc fuel) p b =
    let b1 = tick_struct p b in
    let rest = tick_from fuel (struct_at b1 p).next b1 in if p == 0 then done b else rest

unfoldable pub mp1_rtc_tasklet : (fuel : ℕ) → Blinks → Outcome Blinks
unfolding tick_from
mp1_rtc_tasklet fuel b = tick_from fuel b.mp1_list_head b
