-- ===== src/Report/Network.antt =====
-- show_network_status and detect_network of core/net/tcpip.c.
use korus_os.Report.{labelled}
use korus_os.Prelude.{ℕ, ◌/◌, ◌%◌, List, [], ◌∷◌, ◌++◌, if◌then◌else◌, count_if}
use korus_os.Screen.Print.{Call}
use korus_os.Net.{Net, max_connections}

-- `local_mac` as init_network sets it; nothing else writes it.
abbrev pub local_mac : List ℕ
local_mac = 0x52 ∷ 0x54 ∷ 0x00 ∷ 0x12 ∷ 0x34 ∷ 0x56 ∷ []

unfoldable pub mac_part : List ℕ → List Call
mac_part [] = []
mac_part (b ∷ []) = Call.hex b ∷ []
mac_part (b ∷ c ∷ bs) = Call.hex b ∷ Call.print ":" ∷ mac_part (c ∷ bs)

abbrev pub ip_part : ℕ → List Call
ip_part ip =
    Call.int (ip / 16777216 % 256)
    ∷ Call.char b'.'
    ∷ Call.int (ip / 65536 % 256)
    ∷ Call.char b'.'
    ∷ Call.int (ip / 256 % 256)
    ∷ Call.char b'.'
    ∷ Call.int (ip % 256)
    ∷ Call.println ""
    ∷ []

-- The part that a network that is up adds.
unfoldable pub network_lines : Net → List Call
network_lines s =
    (Call.print "  IP Local   : " ∷ ip_part s.local_ip)
    ++ ((Call.print "  MAC        : " ∷ (mac_part local_mac ++ (Call.println "" ∷ [])))
        ++ (labelled "  Pkts Enviados : " s.packets_sent ""
            ++ (labelled "  Pkts Recebidos: " s.packets_recv ""
                ++ (Call.print "  Conexoes TCP  : "
                    ∷ Call.int (count_if (λ c. c.active) s.connections)
                    ∷ Call.print "/"
                    ∷ Call.int max_connections
                    ∷ Call.println ""
                    ∷ []))))

unfoldable pub show_network_status : Net → List Call
show_network_status s =
    Call.println "=== Status da Rede TCP/IP ==="
    ∷ Call.print "  Interface  : "
    ∷ Call.println (if s.network_up then "eth0 (Ativa)" else "Nenhuma (Inativa)")
    ∷ (if s.network_up then network_lines s else [])

unfoldable pub detect_network : Net → List Call
detect_network s =
    if s.network_up
    then Call.println "  Interface de rede detectada e ativa." ∷ []
    else Call.println "  Nenhuma interface de rede detectada." ∷ []
