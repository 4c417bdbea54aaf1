-- ===== src/Keyboard.antt =====
-- core/drivers/keyboard.c: the PS/2 keyboard. Characters are their codes, and a poll of the
-- controller is an input: none if no byte waits, some scancode if one does.
pub mod Ring
pub mod Readline
mod Tests
use korus_os.Prelude.{
  ℕ, zero, suc, ◌+◌, ◌-◌, ◌%◌, Bool, false, ◌&&◌, ◌||◌, not, xor, Option, none, some, List, [], ◌∷◌,
  ◌++◌, ltb, leb, ◌==◌, if◌then◌else◌, update, sub32, length, get_or, take,
}
use korus_os.Prelude.Bits.{test_bit}

abbrev pub kb_buffer_size : ℕ
kb_buffer_size = 256

-- The static variables of keyboard.c.
pub record Keyboard : Type 0 where
  pub buffer : ℕ → ℕ
  pub head : ℕ
  pub tail : ℕ
  pub shift_pressed : Bool
  pub caps_lock : Bool
  pub ctrl_pressed : Bool

abbrev pub scancode_map : List ℕ
scancode_map =
    0 ∷ 0 ∷ 49 ∷ 50 ∷ 51 ∷ 52 ∷ 53 ∷ 54 ∷ 55 ∷ 56 ∷ 57 ∷ 48 ∷ 45 ∷ 61 ∷ 8 ∷ 9 ∷ 113 ∷ 119 ∷ 101
    ∷ 114 ∷ 116 ∷ 121 ∷ 117 ∷ 105 ∷ 111 ∷ 112 ∷ 91 ∷ 93 ∷ 10 ∷ 0 ∷ 97 ∷ 115 ∷ 100 ∷ 102 ∷ 103 ∷ 104
    ∷ 106 ∷ 107 ∷ 108 ∷ 59 ∷ 39 ∷ 96 ∷ 0 ∷ 92 ∷ 122 ∷ 120 ∷ 99 ∷ 118 ∷ 98 ∷ 110 ∷ 109 ∷ 44 ∷ 46 ∷ 47
    ∷ 0 ∷ 42 ∷ 0 ∷ 32 ∷ 0 ∷ 0 ∷ 0 ∷ 0 ∷ 0 ∷ 0 ∷ []

abbrev pub scancode_shift_map : List ℕ
scancode_shift_map =
    0 ∷ 0 ∷ 33 ∷ 64 ∷ 35 ∷ 36 ∷ 37 ∷ 94 ∷ 38 ∷ 42 ∷ 40 ∷ 41 ∷ 95 ∷ 43 ∷ 8 ∷ 9 ∷ 81 ∷ 87 ∷ 69 ∷ 82
    ∷ 84 ∷ 89 ∷ 85 ∷ 73 ∷ 79 ∷ 80 ∷ 123 ∷ 125 ∷ 10 ∷ 0 ∷ 65 ∷ 83 ∷ 68 ∷ 70 ∷ 71 ∷ 72 ∷ 74 ∷ 75 ∷ 76
    ∷ 58 ∷ 34 ∷ 126 ∷ 0 ∷ 124 ∷ 90 ∷ 88 ∷ 67 ∷ 86 ∷ 66 ∷ 78 ∷ 77 ∷ 60 ∷ 62 ∷ 63 ∷ 0 ∷ 42 ∷ 0 ∷ 32
    ∷ 0 ∷ 0 ∷ 0 ∷ 0 ∷ 0 ∷ 0 ∷ []

unfoldable pub kb_buffer_push : Keyboard → ℕ → Keyboard
kb_buffer_push k c =
    let next = (k.head + 1) % kb_buffer_size in
    if next == k.tail then k else record k { buffer = update k.buffer k.head c; head = next }

-- 0 for an empty buffer.
unfoldable pub kb_buffer_pop : Keyboard → ℕ × Keyboard
kb_buffer_pop k =
    if k.head == k.tail
    then (0, k)
    else (k.buffer k.tail, record k { tail = (k.tail + 1) % kb_buffer_size })

-- `scancode & ~SC_RELEASE`, on a byte.
abbrev pub key_of : ℕ → ℕ
key_of scancode = scancode % 128

abbrev pub is_released : ℕ → Bool
is_released scancode = test_bit scancode 7

-- The end of kb_handle_scancode: the character, pushed if it is not 0.
unfoldable pub push_key : Keyboard → ℕ → Keyboard
push_key k key =
    let c =
      get_or (if xor k.shift_pressed k.caps_lock then scancode_shift_map else scancode_map) key 0 in
    if c == 0 then k else kb_buffer_push k c

unfoldable pub kb_handle_scancode : Keyboard → ℕ → Keyboard
unfolding push_key
kb_handle_scancode k scancode =
    let released = is_released scancode in
    let key = key_of scancode in
    if key == 0x2A || key == 0x36
    then record k { shift_pressed = not released }
    else if key == 0x1D
    then record k { ctrl_pressed = not released }
    else if key == 0x3A && not released
    then record k { caps_lock = not k.caps_lock }
    else if released
    then k
    else if leb (length scancode_map) key
    then k
    else push_key k key

-- init_keyboard, which then reads and drops the bytes that wait.
unfoldable pub init_keyboard : Keyboard → Keyboard
init_keyboard k = record k {
  head = 0;
  tail = 0;
  shift_pressed = false;
  caps_lock = false;
  ctrl_pressed = false;
}

unfoldable pub kb_poll : Keyboard → Option ℕ → Keyboard
kb_poll k none = k
kb_poll k (some scancode) = kb_handle_scancode k scancode

unfoldable pub kb_getchar_noblock : Keyboard → Option ℕ → ℕ × Keyboard
kb_getchar_noblock k input = kb_buffer_pop (kb_poll k input)

-- `do { kb_poll(); c = kb_buffer_pop(); } while (c == 0);` over the inputs to come. none means that
-- it still waits when they are over.
unfoldable pub kb_getchar : Keyboard → List (Option ℕ) → Option (ℕ × Keyboard × List (Option ℕ))
kb_getchar k [] = none
kb_getchar k (i ∷ is) =
    let (c, k') = kb_getchar_noblock k i in
    let rest = kb_getchar k' is in if c == 0 then rest else some (c, k', is)

-- What kb_readline comes to: a line, or a wait for more input. `out` means that the fuel ran out.
pub data Line : Type 0 where
  line : (buffer screen : List ℕ) → Keyboard → List (Option ℕ) → Line
  waits : (buffer screen : List ℕ) → Line
  out : Line

-- The loop of kb_readline. `buffer` is buffer[0..pos], `screen` what was printed.
unfoldable pub readline : ℕ → Keyboard → List (Option ℕ) → List ℕ → List ℕ → ℕ → Line
readline zero k is buffer screen max_len = out
readline (suc n) k is buffer screen max_len =
    if leb (sub32 max_len 1) (length buffer)
    then line buffer screen k is
    else elim (kb_getchar k is) [
      | none ↦ waits buffer screen
      | some (c, k', is') ↦
          if c == 10 || c == 13
          then line buffer (screen ++ (10 ∷ [])) k' is'
          else if c == 8
          then (if ltb 0 (length buffer)
              then readline n k' is' (take (length buffer - 1) buffer) (screen ++ (8 ∷ [])) max_len
              else readline n k' is' buffer screen max_len)
          else if leb 32 c && ltb c 127
          then readline n k' is' (buffer ++ (c ∷ [])) (screen ++ (c ∷ [])) max_len
          else readline n k' is' buffer screen max_len
    ]

-- kb_readline: each round but the last takes an input, so that this fuel is enough.
unfoldable pub kb_readline : Keyboard → List (Option ℕ) → ℕ → Line
kb_readline k is max_len = readline (length is + 1) k is [] [] max_len
