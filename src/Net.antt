-- ===== src/Net.antt =====
-- core/net/tcpip.c: byte order, the IP checksum, and the sends and receives of TCP, which touch no
-- device. A header is the list of its bytes.
pub mod Checksum
pub mod Transfer
mod Tests
use korus_os.Prelude.{
  ℕ, zero, suc, ◌+◌, ◌-◌, ◌*◌, ◌/◌, ◌%◌, min, Bool, true, false, ◌||◌, not, Option, none, some,
  List, [], ◌∷◌, ◌++◌, ltb, leb, ◌==◌, if◌then◌else◌, add32, get_or, replicate, modify, find_index,
}
use korus_os.Memory.Bytes.{Bytes, kmemcpy}

abbrev pub max_connections : ℕ
max_connections = 16

abbrev pub net_buffer_size : ℕ
net_buffer_size = 1500

-- sizeof(eth_header_t), sizeof(ip_header_t) and sizeof(tcp_header_t), packed.
abbrev pub eth_header_size : ℕ
eth_header_size = 14

abbrev pub ip_header_size : ℕ
ip_header_size = 20

abbrev pub tcp_header_size : ℕ
tcp_header_size = 20

-- The fields of tcp_connection_t that the code reads or writes.
pub record Connection : Type 0 where
  pub active : Bool
  pub rx_buffer : Bytes
  pub rx_len : ℕ

abbrev pub zero_connection : Connection
zero_connection = record { active = false; rx_buffer = λ i. 0; rx_len = 0 }

-- The static variables of tcpip.c, but for local_mac.
pub record Net : Type 0 where
  pub connections : List Connection
  pub local_ip : ℕ
  pub network_up : Bool
  pub packets_sent : ℕ
  pub packets_recv : ℕ
  pub next_port : ℕ

-- `(u16)((val >> 8) | (val << 8))`: the two sides have no bit in common.
unfoldable pub htons : ℕ → ℕ
htons val = (val / 256 + val * 256) % 65536

unfoldable pub htonl : ℕ → ℕ
htonl val =
    val / 16777216 % 256 + val / 65536 % 256 * 256 + val / 256 % 256 * 65536 + val % 256 * 16777216

-- The two loops of the sum: little-endian words, and a byte that is left over.
unfoldable pub sum_words : ℕ → List ℕ → ℕ
sum_words sum [] = sum
sum_words sum (a ∷ []) = add32 sum a
sum_words sum (a ∷ b ∷ bs) = sum_words (add32 sum (a + b * 256)) bs

-- `while (sum >> 16) sum = (sum & 0xFFFF) + (sum >> 16);`
unfoldable pub fold_carry : ℕ → ℕ → ℕ
fold_carry zero sum = sum
fold_carry (suc n) sum =
    let rest = fold_carry n (sum % 65536 + sum / 65536) in if sum / 65536 == 0 then sum else rest

-- `(u16)~sum`, after at most two rounds of the fold for a u32.
unfoldable pub ip_checksum : List ℕ → ℕ
unfolding fold_carry sum_words
ip_checksum bytes = 65535 - fold_carry 3 (sum_words 0 bytes) % 65536

abbrev is_free : Connection → Bool
is_free c = not c.active

-- none for -1
unfoldable pub find_free_connection : List Connection → Option ℕ
find_free_connection = find_index is_free

unfoldable pub init_network : Net
init_network = record {
  connections = replicate max_connections zero_connection;
  packets_sent = 0;
  packets_recv = 0;
  next_port = 49152;
  local_ip = 10 * 16777216 + 2 * 256 + 15;
  network_up = true;
}

-- The bytes of a u16 and a u32 in memory.
abbrev pub le16 : ℕ → List ℕ
le16 v = v % 256 ∷ v / 256 % 256 ∷ []

abbrev pub le32 : ℕ → List ℕ
le32 v = v % 256 ∷ v / 256 % 256 ∷ v / 65536 % 256 ∷ v / 16777216 % 256 ∷ []

-- The fields of tcp_send's IP header before the checksum, and those after it.
abbrev pub header_front : Net → ℕ → List ℕ
header_front s len =
    0x45
    ∷ 0
    ∷ (le16 (htons ((ip_header_size + tcp_header_size + len) % 65536))
        ++ (le16 (htons (s.packets_sent % 65536)) ++ (le16 (htons 0x4000) ++ (64 ∷ 6 ∷ []))))

abbrev pub header_back : Net → ℕ → List ℕ
header_back s dst_ip = le32 (htonl s.local_ip) ++ le32 (htonl dst_ip)

unfoldable pub ip_header : Net → ℕ → ℕ → List ℕ
unfolding ip_checksum htons htonl
ip_header s dst_ip len =
    let front = header_front s len in
    let back = header_back s dst_ip in
    front ++ (le16 (ip_checksum (front ++ (0 ∷ 0 ∷ back))) ++ back)

pub data SendResult : Type 0 where
  down no_data too_long : SendResult
  sent : (ip : List ℕ) → SendResult

-- The results -1, -2, -3 and 0. `has_data` is false for a NULL `data`. The TCP header, which nothing
-- reads, is left out but for the port that it takes.
unfoldable pub tcp_send : Net → ℕ → Bool → ℕ → SendResult × Net
unfolding ip_header
tcp_send s dst_ip has_data len =
    if not s.network_up
    then (SendResult.down, s)
    else if not has_data || len == 0
    then (SendResult.no_data, s)
    else if ltb (net_buffer_size - eth_header_size - ip_header_size - tcp_header_size) len
    then (SendResult.too_long, s)
    else (
      SendResult.sent (ip_header s dst_ip len),
      record s { next_port = (s.next_port + 1) % 65536; packets_sent = add32 s.packets_sent 1 },
    )

-- The first `n` bytes of a receive buffer.
abbrev pub bytes_from : Bytes → ℕ → ℕ → List ℕ
bytes_from m i zero = []
bytes_from m i (suc n) = m i ∷ bytes_from m (i + 1) n

abbrev pub connection_at : Net → ℕ → Connection
connection_at s i = get_or s.connections i zero_connection

-- What tcp_receive does to the connection; the copy within rx_buffer goes to lower addresses.
unfoldable pub consume : ℕ → Connection → Connection
consume bytes c =
    let left = c.rx_len - bytes in
    record c {
      rx_len = left;
      rx_buffer = if ltb 0 left then kmemcpy c.rx_buffer 0 bytes left else c.rx_buffer;
    }

-- The bytes that are copied to the buffer, none for -1. An int is its 32-bit pattern, so that a
-- negative `conn_id` is out of range.
unfoldable pub tcp_receive : Net → ℕ → ℕ → Option (List ℕ) × Net
unfolding consume
tcp_receive s conn_id max_len =
    let c = connection_at s conn_id in
    let bytes = min max_len c.rx_len in
    if leb max_connections conn_id
    then (none, s)
    else if not c.active
    then (none, s)
    else if c.rx_len == 0
    then (some [], s)
    else (
      some (bytes_from c.rx_buffer 0 bytes),
      record s {
        connections = modify s.connections conn_id (consume bytes);
        packets_recv = add32 s.packets_recv 1;
      },
    )
