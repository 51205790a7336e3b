-- ===== src/Drivers/Keyboard/Queue.antt =====
-- drivers/keyboard.c: the ring is a queue of at most 63 keys.
use minerva_os.Base.{
  ℕ, zero, suc, ◌+◌, ◌%◌, ◌≤◌, ◌<◌, ◌≡◌, ◌≢◌, refl, sym, ap, ap₂, ◌∙◌, inl, inr, Bool, true, false,
  Bool-cases, List, [], ◌∷◌, ◌++◌, Option, none, some, if◌then◌else◌, not, ◌==◌, ==_iff, leb,
  leb→le, ◌⊎◌, get_or, get_or-set_self, get_or-set_ne, set, length, length-set, length-append,
  bit_and, arith,
}
use minerva_os.Drivers.Keyboard.{
  Keyboard, keyboard_start, scancode_map, keyboard_irq_handler, keyboard_read_key,
}

-- What happens to the keyboard: a scan code comes, or a reader asks for a key.
pub data Event : Type 0 where
  scan : ℕ → Event
  read : Event

-- What a reader gets, `none` where it has to wait, and the keyboard after it.
abbrev read_step : Keyboard → Option (ℕ × Keyboard) → Option ℕ × Keyboard
read_step kb none = (none, kb)
read_step kb (some (c, kb')) = (some c, kb')

-- What the readers get.
unfoldable pub run : Keyboard → List Event → List (Option ℕ)
run kb [] = []
run kb (scan code ∷ events) = run (keyboard_irq_handler kb code) events
run kb (read ∷ events) = let (c, kb') = read_step kb (keyboard_read_key kb) in c ∷ run kb' events

-- A queue of keys: the presses of keys that have a character come in, unless 63 are waiting.
abbrev press : List ℕ → ℕ → List ℕ
press queue code =
    let c = get_or scancode_map code 0 in
    if not (bit_and code 0x80 == 0)
    then queue
    else if leb 128 code
    then queue
    else if c == 0
    then queue
    else if leb 63 (length queue)
    then queue
    else queue ++ c ∷ []

unfoldable pub run_queue : List ℕ → List Event → List (Option ℕ)
run_queue queue [] = []
run_queue queue (scan code ∷ events) = run_queue (press queue code) events
run_queue [] (read ∷ events) = none ∷ run_queue [] events
run_queue (c ∷ queue) (read ∷ events) = some c ∷ run_queue queue events

record Holds (kb : Keyboard) (queue : List ℕ) : Type 0 where
  room : length kb.buffer ≡ 64
  few : length queue ≤ 63
  tail_bound : kb.tail < 64
  head_place : kb.head ≡ (kb.tail + length queue) % 64
  keys : (i : ℕ) → i < length queue → get_or kb.buffer ((kb.tail + i) % 64) 0 ≡ get_or queue i 0

get_or-append_low :
    (xs : List ℕ) (c i : ℕ) → i < length xs → get_or (xs ++ c ∷ []) i 0 ≡ get_or xs i 0
get_or-append_low [] c i h = absurd (omega arith)
get_or-append_low (x ∷ xs) c zero h = refl
get_or-append_low (x ∷ xs) c (suc i) h = get_or-append_low xs c i (omega arith)

get_or-append_last : (xs : List ℕ) (c : ℕ) → get_or (xs ++ c ∷ []) (length xs) 0 ≡ c
get_or-append_last [] c = refl
get_or-append_last (x ∷ xs) c = get_or-append_last xs c

below : (total i n : ℕ) → i < total → total ≡ n + 1 → (i < n) ⊎ (i ≡ n)
below total i n h e = ground (arith, e)

-- A key goes to the end of the queue.
push-Holds :
    (kb : Keyboard) (queue : List ℕ) (c : ℕ)
    → Holds kb queue
    → length queue < 63
    → Holds
        (record kb { buffer = set kb.buffer kb.head c; head = (kb.head + 1) % 64 })
        (queue ++ c ∷ [])
push-Holds kb queue c h small = record {
  room = length-set kb.buffer kb.head c ∙ h.room;
  few = omega (arith, length-append queue (c ∷ []), small);
  tail_bound = h.tail_bound;
  head_place = omega (arith, h.head_place, length-append queue (c ∷ []));
  keys = λ i b.
      let n = length queue in
      let place = h.head_place in
      elim (below (length (queue ++ c ∷ [])) i n b (length-append queue (c ∷ []) ∙ refl)) [
        | inl low ↦
            get_or-set_ne kb.buffer kb.head ((kb.tail + i) % 64) c 0
              (λ e. omega (arith, e, place, low, small))
            ∙ h.keys i low
            ∙ sym (get_or-append_low queue c i low)
        | inr e ↦
            ap₂ (λ at l. get_or (set kb.buffer kb.head c) at 0) (omega (arith, e, place)) e
            ∙ get_or-set_self kb.buffer kb.head c 0 (omega (arith, h.room, place))
            ∙ sym (get_or-append_last queue c)
            ∙ ap (λ j. get_or (queue ++ c ∷ []) j 0) (sym e)
      ];
}

-- A key is taken from the front.
pop-Holds :
    (kb : Keyboard) (c : ℕ) (queue : List ℕ)
    → Holds kb (c ∷ queue)
    → Holds (record kb { tail = (kb.tail + 1) % 64 }) queue
pop-Holds kb c queue h = record {
  room = h.room;
  few = omega (arith, h.few);
  tail_bound = omega arith;
  head_place = omega (arith, h.head_place);
  keys = λ i b. ap (λ j. get_or kb.buffer j 0) (omega arith) ∙ h.keys (suc i) (omega (arith, b));
}

accept-Holds :
    (kb : Keyboard) (queue : List ℕ) (c : ℕ)
    → Holds kb queue
    → Holds
        (if (kb.head + 1) % 64 == kb.tail
          then kb
          else record kb { buffer = set kb.buffer kb.head c; head = (kb.head + 1) % 64 })
        (if leb 63 (length queue) then queue else queue ++ c ∷ [])
accept-Holds kb queue c h = elim (Bool-cases (leb 63 (length queue))) [
  | inl full ↦
      let same : (kb.head + 1) % 64 ≡ kb.tail =
        omega (arith, h.head_place, h.few, h.tail_bound, leb→le 63 (length queue) full) in
      rw (full, (==_iff _ kb.tail).1 same) h
  | inr free ↦
      let small = not_leb→lt 63 (length queue) free in
      let other : (kb.head + 1) % 64 ≢ kb.tail =
        λ e. omega (arith, e, h.head_place, h.tail_bound, small) in
      rw (free, not_same _ _ other) (push-Holds kb queue c h small)
]
  where
    not_leb→lt : (a b : ℕ) → leb a b ≡ false → b < a
    not_leb→lt a b e = ground arith

    not_same : (a b : ℕ) → a ≢ b → (a == b) ≡ false
    not_same a b h = elim (Bool-cases (a == b)) [
      | inl e ↦ absurd (h ((==_iff a b).0 e))
      | inr e ↦ e
    ]

irq-Holds :
    (kb : Keyboard) (queue : List ℕ) (code : ℕ)
    → Holds kb queue
    → Holds (keyboard_irq_handler kb code) (press queue code)
unfolding keyboard_irq_handler
irq-Holds kb queue code h =
    both_if (not (bit_and code 0x80 == 0)) h
      (both_if (leb 128 code) h (both_if (_ == 0) h (accept-Holds kb queue _ h)))
  where
    both_if :
        (b : Bool) {k k' : Keyboard} {q q' : List ℕ}
        → Holds k q
        → Holds k' q'
        → Holds (if b then k else k') (if b then q else q')
    both_if true p r = p
    both_if false p r = r

read_empty : (kb : Keyboard) → Holds kb [] → keyboard_read_key kb ≡ none
unfolding keyboard_read_key
read_empty kb h =
    let same : kb.head ≡ kb.tail = omega (arith, h.head_place, h.tail_bound) in
    rw ((==_iff kb.head kb.tail).1 same) refl

read_front :
    (kb : Keyboard) (c : ℕ) (queue : List ℕ)
    → Holds kb (c ∷ queue)
    → keyboard_read_key kb ≡ some (c, record kb { tail = (kb.tail + 1) % 64 })
unfolding keyboard_read_key
read_front kb c queue h = elim (Bool-cases (kb.head == kb.tail)) [
  | inl e ↦ absurd (omega (arith, (==_iff kb.head kb.tail).0 e, h.head_place, h.few, h.tail_bound))
  | inr e ↦
      let first : get_or kb.buffer kb.tail 0 ≡ c =
        ap (λ j. get_or kb.buffer j 0) (omega (arith, h.tail_bound)) ∙ h.keys 0 (omega arith) in
      rw (e, first) refl
]

run-Holds :
    (events : List Event) (kb : Keyboard) (queue : List ℕ)
    → Holds kb queue
    → run kb events ≡ run_queue queue events
unfolding run run_queue
run-Holds [] kb queue h = refl
run-Holds (scan code ∷ events) kb queue h =
    run-Holds events (keyboard_irq_handler kb code) (press queue code) (irq-Holds kb queue code h)
run-Holds (read ∷ events) kb [] h =
    rw (read_empty kb h) (ap (λ l. none ∷ l) (run-Holds events kb [] h))
run-Holds (read ∷ events) kb (c ∷ queue) h =
    let next = record kb { tail = (kb.tail + 1) % 64 } in
    rw (read_front kb c queue h)
      (ap (λ l. some c ∷ l) (run-Holds events next queue (pop-Holds kb c queue h)))

-- Whatever keys are pressed and read in whatever order, the readers get what a queue of at most 63 keys
-- gives them, and wait exactly when that is empty.
pub run-run_queue : (events : List Event) → run keyboard_start events ≡ run_queue [] events
run-run_queue events = run-Holds events keyboard_start [] (record {
  room = refl;
  few = omega arith;
  tail_bound = omega arith;
  head_place = refl;
  keys = λ i b. absurd (omega (arith, b));
})
