-- ===== src/Terminal/Switch.antt =====
-- `term_switch` of student-distrib/terminal.c: each terminal keeps its text, wherever it stands.
use octave_os.Kernel.{Kernel}
use native.Mathlib.Decide.{ℕ_discrete}
use octave_os.Base.{
  ℕ, ◌+◌, ◌-◌, ◌*◌, ◌<◌, ◌≡◌, ◌≢◌, refl, ◌∙◌, ap, arith, ◌==◌, if◌then◌else◌, sym, true, false,
}
use octave_os.Str.{Bytes}
use octave_os.Screen.{Screen, update_cursor}
use octave_os.Memory.{memset, memcpy, in_range, memset_lem, memcpy_lem}
use octave_os.Terminal.{max_term, video, fourkb, switch_pages, switch_screen, term_switch}

-- The terminal that is shown has its text on the screen, and every other in its own page.
abbrev pub page_of : (curr_term t : ℕ) → ℕ
page_of curr t = if curr == t then video else video + fourkb * (t + 1)

pub record HasPages (s : Screen) : Type 0 where
  pub shown : s.curr_term < max_term
  pub pages : (t : ℕ) → t < max_term → (s.terminals t).video_mem ≡ page_of s.curr_term t

-- The byte at a place of a terminal's text.
abbrev pub text_at : Screen → (t p : ℕ) → ℕ
text_at s t p = s.mem ((s.terminals t).video_mem + p)

switch_pages_lem :
    (old new a : ℕ) (mem : Bytes)
    → old < max_term
    → new < max_term
    → old ≢ new
    → switch_pages old new mem a ≡ (
        if in_range video fourkb a
        then mem (video + fourkb * (new + 1) + (a - video))
        else if in_range (video + fourkb * (old + 1)) fourkb a
        then mem (video + (a - (video + fourkb * (old + 1))))
        else mem a)
unfolding switch_pages
switch_pages_lem old new a mem ho hn ne =
    let saved = video + fourkb * (old + 1) in
    let src = video + fourkb * (new + 1) in
    let m1 = memset saved 0 fourkb mem in
    let m2 = memcpy saved video fourkb m1 in
    let m3 = memset video 0 fourkb m2 in
    let b = src + (a - video) in
    ground (
      arith,
      memcpy_lem video src fourkb a m3,
      memset_lem video 0 fourkb a m2,
      memset_lem video 0 fourkb b m2,
      memcpy_lem saved video fourkb a m1,
      memcpy_lem saved video fourkb b m1,
      memset_lem saved 0 fourkb a mem,
      memset_lem saved 0 fourkb b mem,
      memset_lem saved 0 fourkb (video + (a - saved)) mem,
    )

page_of_self : (t : ℕ) → page_of t t ≡ video
page_of_self t = ground arith

page_of_ne : (c t : ℕ) → c ≢ t → page_of c t ≡ video + fourkb * (t + 1)
page_of_ne c t ne = ground arith

-- The bytes at the place that a terminal's text moves to are those of the place that it leaves.
switch_pages-page_of :
    (old new t p : ℕ) (mem : Bytes)
    → old < max_term
    → new < max_term
    → t < max_term
    → p < fourkb
    → old ≢ new
    → switch_pages old new mem (page_of new t + p) ≡ mem (page_of old t + p)
switch_pages-page_of old new t p mem ho hn ht hp ne = elim (ℕ_discrete new t) [
  | yes e ↦
      let at : page_of new t + p ≡ video + p = ground arith in
      let from : page_of old t ≡ video + fourkb * (new + 1) = ground arith in
      let place : mem (video + fourkb * (new + 1) + (page_of new t + p - video))
          ≡ mem (page_of old t + p) =
        ap mem (omega arith) in
      switch_pages_lem old new (page_of new t + p) mem ho hn ne ∙ shown at place
  | no miss ↦
      let at : page_of new t + p ≡ video + fourkb * (t + 1) + p = ground arith in
      switch_pages_lem old new (page_of new t + p) mem ho hn ne ∙ elim (ℕ_discrete old t) [
        | yes e ↦
            let place : mem (video + (page_of new t + p - (video + fourkb * (old + 1))))
                ≡ mem (page_of old t + p) =
              ap mem
                (omega (arith, page_of_ne new t miss, page_of_self t, ap (λ c. page_of c t) e)) in
            saved at e place
        | no stays ↦
            let place : mem (page_of new t + p) ≡ mem (page_of old t + p) =
              ap mem (omega (arith, page_of_ne new t miss, page_of_ne old t stays)) in
            kept at stays place
      ]
]
  where
    a : ℕ
    a = page_of new t + p

    moved : ℕ → ℕ
    moved v =
        if in_range video fourkb v
        then mem (video + fourkb * (new + 1) + (v - video))
        else if in_range (video + fourkb * (old + 1)) fourkb v
        then mem (video + (v - (video + fourkb * (old + 1))))
        else mem v

    shown :
        a ≡ video + p
        → mem (video + fourkb * (new + 1) + (a - video)) ≡ mem (page_of old t + p)
        → moved a ≡ mem (page_of old t + p)
    shown at place = ground arith

    saved :
        a ≡ video + fourkb * (t + 1) + p
        → old ≡ t
        → mem (video + (a - (video + fourkb * (old + 1)))) ≡ mem (page_of old t + p)
        → moved a ≡ mem (page_of old t + p)
    saved at e place = ground arith

    kept :
        a ≡ video + fourkb * (t + 1) + p
        → old ≢ t
        → mem a ≡ mem (page_of old t + p)
        → moved a ≡ mem (page_of old t + p)
    kept at stays place = ground arith

module _ (new : ℕ) (s : Screen) (ok : HasPages s) (hn : new < max_term)
    (ne : s.curr_term ≢ new) where
  -- Where a switch leaves each terminal's text.
  pub video_mem-switch :
      (t : ℕ) → t < max_term → ((switch_screen new s).terminals t).video_mem ≡ page_of new t
  unfolding switch_screen
  video_mem-switch t ht = ground (arith, ok.pages t ht)

  text_at-switch :
      (t p : ℕ) → t < max_term → p < fourkb → text_at (switch_screen new s) t p ≡ text_at s t p
  unfolding switch_screen
  text_at-switch t p ht hp =
      ap (λ v. switch_pages s.curr_term new s.mem (v + p)) (video_mem-switch t ht)
      ∙ switch_pages-page_of s.curr_term new t p s.mem ok.shown hn ht hp ne
      ∙ sym (ap (λ v. s.mem (v + p)) (ok.pages t ht))

module _ (new : ℕ) (k : Kernel) (ok : HasPages k.screen) (hn : new < max_term) where
  -- `term_switch` to a terminal shows it, and keeps the pages as they must be: the terminal that is
  -- shown has its text on the screen and every other in its own page.
  pub term_switch-HasPages :
      HasPages (term_switch new k).screen × ((term_switch new k).screen.curr_term ≡ new)
  unfolding term_switch update_cursor
  term_switch-HasPages = elim (ℕ_discrete k.screen.curr_term new) [
    | yes e ↦ same e
    | no ne ↦
        let stays : (k.screen.curr_term == new) ≡ false = ground arith in
        rw stays
          (record { shown = hn; pages = λ t ht. video_mem-switch new k.screen ok hn ne t ht }, refl)
  ]
    where
      same :
          k.screen.curr_term ≡ new
          → HasPages (term_switch new k).screen × ((term_switch new k).screen.curr_term ≡ new)
      same e = let stays : (k.screen.curr_term == new) ≡ true = ground arith in rw stays (ok, e)

  -- `term_switch` keeps the text of every terminal, byte for byte, where the pages are as they must
  -- be: only the place where the text stands changes.
  pub text_at-term_switch :
      (t p : ℕ)
      → t < max_term
      → p < fourkb
      → text_at (term_switch new k).screen t p ≡ text_at k.screen t p
  unfolding term_switch update_cursor
  text_at-term_switch t p ht hp = elim (ℕ_discrete k.screen.curr_term new) [
    | yes e ↦ let stays : (k.screen.curr_term == new) ≡ true = ground arith in rw stays
    | no ne ↦
        let stays : (k.screen.curr_term == new) ≡ false = ground arith in
        rw stays (text_at-switch new k.screen ok hn ne t p ht hp)
  ]
