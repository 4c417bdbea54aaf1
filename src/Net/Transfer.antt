-- ===== src/Net/Transfer.antt =====
-- tcp_send and tcp_receive.
use korus_os.Prelude.{
  ℕ, ◌+◌, ◌%◌, ◌≤◌, ◌<◌, ◌≡◌, refl, Bool, true, false, ◌||◌, not, arith, ltb, ◌==◌, add32, u32_mod,
  Bool-cases, inl, inr, sym, subst, ltb→lt, length,
}
use korus_os.Net.{Net, SendResult, ip_checksum, ip_header, tcp_send, header_front, header_back}
use korus_os.Net.Checksum.{plain, ip_checksum-verifies}

-- What tcp_send comes to: an error and no change, or a packet with a checksum that verifies.
abbrev pub Sends : Net → Bool → ℕ → SendResult × Net → Type 0
Sends s has_data len (SendResult.down, s') = (s.network_up ≡ false) × (s' ≡ s)
Sends s has_data len (SendResult.no_data, s') =
    (s.network_up ≡ true) × ((not has_data || len == 0) ≡ true) × (s' ≡ s)
Sends s has_data len (SendResult.too_long, s') = (s.network_up ≡ true) × (1446 < len) × (s' ≡ s)
Sends s has_data len (SendResult.sent ip, s') =
    (s.network_up ≡ true)
    × (0 < len)
    × (len ≤ 1446)
    × (length ip ≡ 20)
    × (ip_checksum ip ≡ 0)
    × (s'.packets_sent ≡ add32 s.packets_sent 1)
    × (s'.next_port ≡ (s.next_port + 1) % 65536)

header_small :
    (s : Net) (dst_ip len : ℕ)
    → plain (header_front s len) + plain (header_back s dst_ip) + 65535 < u32_mod
header_small s dst_ip len = omega arith

ip_header-checksum : (s : Net) (dst_ip len : ℕ) → ip_checksum (ip_header s dst_ip len) ≡ 0
unfolding ip_header
ip_header-checksum s dst_ip len =
    ip_checksum-verifies (header_front s len) (header_back s dst_ip) tt (header_small s dst_ip len)

length-ip_header : (s : Net) (dst_ip len : ℕ) → length (ip_header s dst_ip len) ≡ 20
unfolding ip_header
length-ip_header s dst_ip len = refl

tcp_send-down :
    (s : Net) (dst_ip : ℕ) (has_data : Bool) (len : ℕ)
    → s.network_up ≡ false
    → tcp_send s dst_ip has_data len ≡ (SendResult.down, s)
unfolding tcp_send
tcp_send-down s dst_ip has_data len e = ground arith

tcp_send-no_data :
    (s : Net) (dst_ip : ℕ) (has_data : Bool) (len : ℕ)
    → s.network_up ≡ true
    → (not has_data || len == 0) ≡ true
    → tcp_send s dst_ip has_data len ≡ (SendResult.no_data, s)
unfolding tcp_send
tcp_send-no_data s dst_ip has_data len e f = ground arith

tcp_send-too_long :
    (s : Net) (dst_ip : ℕ) (has_data : Bool) (len : ℕ)
    → s.network_up ≡ true
    → (not has_data || len == 0) ≡ false
    → ltb 1446 len ≡ true
    → tcp_send s dst_ip has_data len ≡ (SendResult.too_long, s)
unfolding tcp_send
tcp_send-too_long s dst_ip has_data len e f g = ground arith

after_send : Net → Net
after_send s = record s {
  next_port = (s.next_port + 1) % 65536;
  packets_sent = add32 s.packets_sent 1;
}

tcp_send-sent :
    (s : Net) (dst_ip : ℕ) (has_data : Bool) (len : ℕ)
    → s.network_up ≡ true
    → (not has_data || len == 0) ≡ false
    → ltb 1446 len ≡ false
    → tcp_send s dst_ip has_data len ≡ (SendResult.sent (ip_header s dst_ip len), after_send s)
unfolding tcp_send after_send
tcp_send-sent s dst_ip has_data len e f g = ground arith

-- Every call of tcp_send: -1 if the network is down, else -2 without data, else -3 for more than 1446
-- bytes, each with no change; else 0, with an IP header of 20 bytes whose checksum verifies, one
-- more packet counted and the next port taken.
pub tcp_send-Sends :
    (s : Net) (dst_ip : ℕ) (has_data : Bool) (len : ℕ)
    → Sends s has_data len (tcp_send s dst_ip has_data len)
unfolding after_send
tcp_send-Sends s dst_ip has_data len = elim (Bool-cases s.network_up) [
  | inl up ↦ elim (Bool-cases (not has_data || len == 0)) [
    | inl e ↦
        subst (Sends s has_data len) (sym (tcp_send-no_data s dst_ip has_data len up e))
          (up, e, refl)
    | inr e ↦ elim (Bool-cases (ltb 1446 len)) [
      | inl long ↦
          subst (Sends s has_data len) (sym (tcp_send-too_long s dst_ip has_data len up e long))
            (up, ltb→lt 1446 len long, refl)
      | inr fits ↦
          subst (Sends s has_data len) (sym (tcp_send-sent s dst_ip has_data len up e fits)) (
            up,
            some_data has_data len e,
            short len fits,
            length-ip_header s dst_ip len,
            ip_header-checksum s dst_ip len,
            refl,
            refl,
          )
    ]
  ]
  | inr down ↦
      subst (Sends s has_data len) (sym (tcp_send-down s dst_ip has_data len down)) (down, refl)
]
  where
    some_data : (b : Bool) (len : ℕ) → (not b || len == 0) ≡ false → 0 < len
    some_data b len e = ground arith

    short : (len : ℕ) → ltb 1446 len ≡ false → len ≤ 1446
    short len e = ground arith
