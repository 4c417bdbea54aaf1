-- ===== src/Net/Tests.antt =====
-- The network's theorems at concrete states.
use korus_os.Prelude.{ℕ, ◌≡◌, true, List, [], ◌∷◌, ◌++◌, arith}
use korus_os.Net.{ip_checksum, le16, tcp_send, init_network}
use korus_os.Net.Checksum.{ip_checksum-verifies}
use korus_os.Net.Transfer.{Sends, tcp_send-Sends}

abbrev front : List ℕ
front = 0x45 ∷ 0 ∷ 0 ∷ 0x73 ∷ []

abbrev back : List ℕ
back = 0xC0 ∷ 0xA8 ∷ 0 ∷ 1 ∷ []

ip_checksum-verifies_example :
    ip_checksum (front ++ (le16 (ip_checksum (front ++ (0 ∷ 0 ∷ back))) ++ back)) ≡ 0
ip_checksum-verifies_example = ip_checksum-verifies front back tt (omega arith)

tcp_send-Sends_example : Sends init_network true 100 (tcp_send init_network 0x0A00_0202 true 100)
tcp_send-Sends_example = tcp_send-Sends init_network 0x0A00_0202 true 100
