-- ===== src/Address/Port.antt =====
-- Ports and printed addresses.
use custom_net_framework.Prelude.{ℕ, ◌/◌, ◌%◌, ◌^◌, ◌<◌, ◌≡◌, ◌++◌, Bytes, codes, u16, refl, arith}
use custom_net_framework.Endian.{to_bytes, from_bytes, byteswap, byteswap_lem}
use custom_net_framework.Address.{
  IpV4Address, new_ip_v4, get_port_4, set_port_4, insert_4, IpV6Address, new_ip_v6, get_port_6,
  set_port_6,
}

stored_port : (v : ℕ) → byteswap 2 (u16 (byteswap 4 v)) ≡ (v / 2 ^ 16) % 2 ^ 16
unfolding byteswap to_bytes from_bytes
stored_port v = omega arith

-- After the constructor of IPv4Address or of IPv6Address with a port, and after setPort of either,
-- getPort returns the upper 16 bits of the port as a uint32_t, which is 0 for every port below 2^16.
pub port_lem :
    (address v : ℕ) (a : IpV4Address) (bytes : Bytes) (b : IpV6Address)
    → (get_port_4 (new_ip_v4 address v) ≡ (v / 2 ^ 16) % 2 ^ 16)
      × (get_port_4 (set_port_4 a v) ≡ (v / 2 ^ 16) % 2 ^ 16)
      × (get_port_6 (new_ip_v6 bytes v) ≡ (v / 2 ^ 16) % 2 ^ 16)
      × (get_port_6 (set_port_6 b v) ≡ (v / 2 ^ 16) % 2 ^ 16)
unfolding get_port_4 new_ip_v4 set_port_4 get_port_6 new_ip_v6 set_port_6
port_lem address v a bytes b = (stored_port v, stored_port v, stored_port v, stored_port v)

-- An IPv4Address made of a 32-bit address prints its four bytes from the highest to the lowest, with
-- dots between them, and, after a colon, the upper half of the port.
pub insert_4_lem :
    (number : ℕ → Bytes) (address port : ℕ)
    → address < 2 ^ 32
    → insert_4 number (new_ip_v4 address port)
      ≡ number (address / 2 ^ 24)
        ++ (codes "."
            ++ (number ((address / 2 ^ 16) % 256)
                ++ (codes "."
                    ++ (number ((address / 2 ^ 8) % 256)
                        ++ (codes "."
                            ++ (number (address % 256)
                                ++ (codes ":" ++ number ((port / 2 ^ 16) % 2 ^ 16))))))))
unfolding insert_4 new_ip_v4
insert_4_lem number address port h =
    let high : (address / 2 ^ 24) % 256 ≡ address / 2 ^ 24 = omega (arith, h) in
    rw ((byteswap_lem 4 address).2 (omega (arith, h)), stored_port port, high) refl
