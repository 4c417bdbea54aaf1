-- ===== src/Screen/Tests.antt =====
-- The screen's theorems at concrete states.
use korus_os.Prelude.{List, [], ◌∷◌, arith}
use korus_os.Screen.{Screen}
use korus_os.Screen.Cursor.{InScreen}
use korus_os.Screen.Print.{Call, show, show-InScreen}

-- The last cell of the screen.
abbrev corner : Screen
corner = record { cells = λ i. 0; cursor_x = 79; cursor_y = 24; cur_color = 7; ports = [] }

-- Every kind of call from there on.
abbrev calls : List Call
calls =
    Call.string (65 ∷ 10 ∷ 9 ∷ 8 ∷ [])
    ∷ Call.println "é"
    ∷ Call.hex 255
    ∷ Call.int 0x8000_0000
    ∷ Call.color 7 0
    ∷ Call.clear
    ∷ []

show-InScreen_example : InScreen (show corner calls)
show-InScreen_example = show-InScreen corner calls (omega arith)
