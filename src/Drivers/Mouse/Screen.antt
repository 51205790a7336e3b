-- ===== src/Drivers/Mouse/Screen.antt =====
-- drivers/mouse.c: the pointer stays on the screen.
use minerva_os.Base.Int.{ℤ, pos, negsuc, UpTo}
use minerva_os.Base.{
  ℕ, ◌-◌, ◌≤◌, inl, inr, Bool-cases, refl, Bool, true, false, List, [], ◌∷◌, if◌then◌else◌, ◌==◌,
  leb, leb→le, bit_and, bit_or, arith,
}
use minerva_os.Base.Bits.{bit_and_mask}
use minerva_os.Base.Count.{all_below, all_below_sound}
use minerva_os.Drivers.Mouse.{
  Mouse, mouse_start, clamp, complete, mouse_irq_handler, mouse_get_clicked,
}

-- The pointer is on the screen of 320 times 200, and only the three buttons are set.
pub record IsMouse (m : Mouse) : Type 0 where
  pub x_bound : UpTo 319 m.x
  pub y_bound : UpTo 199 m.y
  pub cycle_bound : m.cycle ≤ 2
  pub buttons_bound : m.buttons ≤ 7
  pub clicked_bound : m.clicked ≤ 7

-- A byte from the mouse, with the status that was read before it, or a reader of the clicks.
pub data Event : Type 0 where
  came : ℕ → ℕ → Event
  click : Event

unfoldable pub run : Mouse → List Event → Mouse
run m [] = m
run m (came status value ∷ events) = run (mouse_irq_handler m status value) events
run m (click ∷ events) = run (mouse_get_clicked m).1 events

clamp-UpTo : (last : ℕ) (v : ℤ) → UpTo last (clamp last v)
unfolding clamp
clamp-UpTo last (negsuc a) = (0, ground arith, omega arith)
clamp-UpTo last (pos a) = elim (Bool-cases (leb a last)) [
  | inl e ↦ (a, rw e refl, leb→le a last e)
  | inr e ↦ (last, rw e refl, omega arith)
]

-- The buttons that are newly down.
pressed-small : (b p : ℕ) → b ≤ 7 → p ≤ 7 → bit_and b (0xFF - p) ≤ 7
unfolding all_below
pressed-small b p h k = leb→le (bit_and b (0xFF - p)) 7 (
    all_below_sound 8 (λ p. leb (bit_and b (0xFF - p)) 7) p
      (all_below_sound 8 (λ b. all_below 8 (λ p. leb (bit_and b (0xFF - p)) 7)) b refl
        (omega (arith, h)))
      (omega (arith, k)))

bit_or-small : (a b : ℕ) → a ≤ 7 → b ≤ 7 → bit_or a b ≤ 7
unfolding all_below
bit_or-small a b h k = leb→le (bit_or a b) 7 (
    all_below_sound 8 (λ f. leb (bit_or a f) 7) b
      (all_below_sound 8 (λ a. all_below 8 (λ f. leb (bit_or a f) 7)) a refl (omega (arith, h)))
      (omega (arith, k)))

complete-IsMouse : (m : Mouse) (byte : ℕ) → IsMouse m → IsMouse (complete m byte)
unfolding complete
complete-IsMouse m byte h =
    let down : bit_and m.byte0 0x07 ≤ 7 = rw (bit_and_mask 3 m.byte0 0x07 refl) (omega arith) in
    record {
      x_bound = clamp-UpTo 319 _;
      y_bound = clamp-UpTo 199 _;
      cycle_bound = omega arith;
      buttons_bound = down;
      clicked_bound =
          bit_or-small m.clicked _ h.clicked_bound (pressed-small _ m.buttons down h.buttons_bound);
    }

if_IsMouse : (c : Bool) (m n : Mouse) → IsMouse m → IsMouse n → IsMouse (if c then m else n)
if_IsMouse true m n p q = p
if_IsMouse false m n p q = q

mouse_irq_handler-IsMouse :
    (m : Mouse) (status value : ℕ) → IsMouse m → IsMouse (mouse_irq_handler m status value)
unfolding mouse_irq_handler
mouse_irq_handler-IsMouse m status value h = if_IsMouse (bit_and status 0x01 == 0) _ _ h (
    if_IsMouse (bit_and status 0x20 == 0) _ _ h (
      if_IsMouse (m.cycle == 0) _ _
        (if_IsMouse (bit_and value 0x08 == 0) _ _ (at_cycle m.cycle h.cycle_bound)
          (at_cycle 1 (omega arith)))
        (if_IsMouse (m.cycle == 1) _ _ (at_cycle 2 (omega arith))
          (if_IsMouse (m.cycle == 2) _ _ (complete-IsMouse m value h) h))))
  where
    at_cycle :
        (c : ℕ) {b0 b1 : ℕ} → c ≤ 2 → IsMouse (record m { cycle = c; byte0 = b0; byte1 = b1 })
    at_cycle c k = record {
      x_bound = h.x_bound;
      y_bound = h.y_bound;
      cycle_bound = k;
      buttons_bound = h.buttons_bound;
      clicked_bound = h.clicked_bound;
    }

run-IsMouse : (events : List Event) (m : Mouse) → IsMouse m → IsMouse (run m events)
unfolding run mouse_get_clicked
run-IsMouse [] m h = h
run-IsMouse (came status value ∷ events) m h =
    run-IsMouse events _ (mouse_irq_handler-IsMouse m status value h)
run-IsMouse (click ∷ events) m h = run-IsMouse events _ (record {
  x_bound = h.x_bound;
  y_bound = h.y_bound;
  cycle_bound = h.cycle_bound;
  buttons_bound = h.buttons_bound;
  clicked_bound = omega arith;
})

-- Whatever bytes come and whenever clicks are read, from the start the pointer stays on the screen of 320
-- times 200 pixels, the place in the packet is one of three, and only the three buttons are ever set.
pub run_start-IsMouse : (events : List Event) → IsMouse (run mouse_start events)
run_start-IsMouse events = run-IsMouse events mouse_start (record {
  x_bound = (160, refl, omega arith);
  y_bound = (100, refl, omega arith);
  cycle_bound = omega arith;
  buttons_bound = omega arith;
  clicked_bound = omega arith;
})
