-- ===== src/Drivers/Tests.antt =====
-- drivers/keyboard.c and drivers/mouse.c: the theorems at concrete inputs.
use minerva_os.Base.{◌≡◌, List, [], ◌∷◌}
use minerva_os.Drivers.Keyboard.{keyboard_start}
use minerva_os.Drivers.Keyboard.Queue
use minerva_os.Drivers.Mouse.{mouse_start}
use minerva_os.Drivers.Mouse.Screen

abbrev keys : List Queue.Event
keys =
    Queue.read
    ∷ Queue.scan 0x1E
    ∷ Queue.scan 0x9E
    ∷ Queue.scan 0x30
    ∷ Queue.read
    ∷ Queue.read
    ∷ Queue.read
    ∷ []

run-run_queue_example : Queue.run keyboard_start keys ≡ Queue.run_queue [] keys
run-run_queue_example = Queue.run-run_queue keys

abbrev packet : List Screen.Event
packet = Screen.came 0x21 9 ∷ Screen.came 0x21 200 ∷ Screen.came 0x21 5 ∷ Screen.click ∷ []

run_start-IsMouse_example : Screen.IsMouse (Screen.run mouse_start packet)
run_start-IsMouse_example = Screen.run_start-IsMouse packet
