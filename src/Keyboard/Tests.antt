-- ===== src/Keyboard/Tests.antt =====
-- The keyboard's theorems at concrete states.
use korus_os.Prelude.{
  ℕ, ◌≡◌, true, false, Option, none, some, List, [], ◌∷◌, ◌++◌, arith, ltb, ◌==◌, if◌then◌else◌,
  length,
}
use korus_os.Keyboard.{Keyboard, kb_buffer_push, kb_buffer_pop, kb_readline, init_keyboard}
use korus_os.Keyboard.Ring.{InRing, contents, kb_buffer_push-Queue, Pops, kb_buffer_pop-Pops}
use korus_os.Keyboard.Readline.{Reads, kb_readline-Reads}

-- Two characters, 65 and 66, round the end of the ring.
abbrev wrapped : Keyboard
wrapped = record {
  buffer = λ i. if i == 255 then 65 else 66;
  head = 1;
  tail = 255;
  shift_pressed = false;
  caps_lock = true;
  ctrl_pressed = false;
}

wrapped-InRing : InRing wrapped
wrapped-InRing = record { head_in = omega arith; tail_in = omega arith }

kb_buffer_push-Queue_example :
    InRing (kb_buffer_push wrapped 67)
    × (contents (kb_buffer_push wrapped 67) ≡ (
        if ltb (length (contents wrapped)) 255
        then contents wrapped ++ (67 ∷ [])
        else contents wrapped))
kb_buffer_push-Queue_example = kb_buffer_push-Queue wrapped 67 wrapped-InRing

kb_buffer_pop-Pops_example : Pops wrapped (contents wrapped) (kb_buffer_pop wrapped)
kb_buffer_pop-Pops_example = kb_buffer_pop-Pops wrapped wrapped-InRing

-- a, b, backspace, enter
abbrev typed : List (Option ℕ)
typed = some 0x1E ∷ none ∷ some 0x30 ∷ some 0x0E ∷ some 0x1C ∷ []

kb_readline-Reads_example : Reads 80 (kb_readline (init_keyboard wrapped) typed 80)
kb_readline-Reads_example = kb_readline-Reads (init_keyboard wrapped) typed 80
