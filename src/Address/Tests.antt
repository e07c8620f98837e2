-- ===== src/Address/Tests.antt =====
-- Addresses of the repository's kinds, and the examples of the theorems.
use custom_net_framework.Prelude.{
  ℕ, ◌+◌, ◌-◌, ◌≢◌, ◌++◌, some, map, All, ◌==◌, ◌≡◌, ◌↔◌, true, false, not, ◌||◌, [], ◌∷◌, Bytes,
  codes, refl, arith, replicate,
}
use custom_net_framework.Endian.{byteswap, to_bytes, from_bytes}
use custom_net_framework.Address.{
  Address, less, equals, differs, get_family, IpV4Address, new_ip_v4, ip_v4_address, get_port_4,
  set_port_4, insert_4, new_ip_v6, get_port_6, set_port_6, colon, group, print_groups, new_unix,
  throws, copies, insert_6, groups_of, IpV6Address,
}
use custom_net_framework.Address.Order.{lex, visible, order_lem}
use custom_net_framework.Address.Port.{port_lem, insert_4_lem}
use custom_net_framework.Address.Text.{read_groups, insert_6-read_groups}

-- 127.0.0.1 with port 8080 prints port 0.
abbrev digit : ℕ → Bytes
digit n = n ∷ []

abbrev home : IpV4Address
home = record { port = 0; addr = 16777343 }

home_made : new_ip_v4 2130706433 8080 ≡ home
unfolding new_ip_v4 byteswap to_bytes from_bytes
home_made = refl

home_family : get_family (ip_v4_address home) ≡ 2
unfolding get_family ip_v4_address to_bytes from_bytes
home_family = refl

port_lem_example :
    (get_port_4 (new_ip_v4 2130706433 8080) ≡ 0)
    × (get_port_4 (set_port_4 home 65536) ≡ 1)
    × (get_port_6 (new_ip_v6 (replicate 16 0) 80) ≡ 0)
    × (get_port_6 (set_port_6 (record { port = 5; addr = [] }) 9) ≡ 0)
port_lem_example = (
  (port_lem 2130706433 8080 home [] (record { port = 5; addr = [] })).0,
  (port_lem 0 65536 home [] (record { port = 5; addr = [] })).1,
  (port_lem 0 80 home (replicate 16 0) (record { port = 5; addr = [] })).2,
  (port_lem 0 9 home [] (record { port = 5; addr = [] })).3,
)

insert_4_lem_example :
    insert_4 digit (new_ip_v4 2130706433 8080)
    ≡ 127 ∷ b'.' ∷ 0 ∷ b'.' ∷ 0 ∷ b'.' ∷ 1 ∷ b':' ∷ 0 ∷ []
insert_4_lem_example = insert_4_lem digit 2130706433 8080 (omega arith)

abbrev near : Address
near = record { bytes = 1 ∷ 2 ∷ 9 ∷ []; size = 2 }

abbrev far : Address
far = record { bytes = 1 ∷ 2 ∷ 3 ∷ []; size = 3 }

order_lem_example :
    (less near far ≡ lex (visible near) (visible far))
    × ((equals near far ≡ true) ↔ (visible near ≡ visible far))
    × (less near near ≡ false)
    × (less near far ≡ true → less far far ≡ true → less near far ≡ true)
    × ((less near far || (less far near || equals near far)) ≡ true)
    × (differs near far ≡ not (equals near far))
order_lem_example = order_lem near far far (omega arith) (omega arith) (omega arith)

-- 1:0:0:2:0:0:0:3 prints as 1::2:0:0:0:3.
middle :
    print_groups false 1 false (256 ∷ 0 ∷ 0 ∷ 512 ∷ 0 ∷ 0 ∷ 0 ∷ 768 ∷ [])
    ≡ group 1
      ∷ colon
      ∷ colon
      ∷ group 2
      ∷ colon
      ∷ group 0
      ∷ colon
      ∷ group 0
      ∷ colon
      ∷ group 0
      ∷ colon
      ∷ group 3
      ∷ []
unfolding print_groups byteswap to_bytes from_bytes
middle = refl

-- A stand-in for digits: one character after the colon.
abbrev digits : ℕ → Bytes
digits g = (g + 59) ∷ []

abbrev value : Bytes → ℕ
value [] = 0
value (c ∷ s) = c - 59

value-digits : (g : ℕ) → value (digits g) ≡ g
value-digits g = omega arith

digits_some : (g : ℕ) → digits g ≢ []
digits_some g e = ground (arith, e)

digits_plain : (g : ℕ) → All (λ c. (c == b':') ≡ false) (digits g)
digits_plain g = ground arith

-- 1:0:0:2:0:0:0:3.
abbrev sixteen : IpV6Address
sixteen = record {
  port = 0;
  addr = 0 ∷ 1 ∷ 0 ∷ 0 ∷ 0 ∷ 0 ∷ 0 ∷ 2 ∷ 0 ∷ 0 ∷ 0 ∷ 0 ∷ 0 ∷ 0 ∷ 0 ∷ 3 ∷ [];
}

insert_6-read_groups_example :
    (text : Bytes) × (insert_6 digit digits sixteen
      ≡ codes "[" ++ (text ++ (codes "]:" ++ digit (byteswap 2 0))))
    × (read_groups value text ≡ some (map (byteswap 2) (groups_of sixteen.addr)))
insert_6-read_groups_example =
    insert_6-read_groups digits value value-digits digits_some digits_plain digit sixteen refl

swaps_back : map (byteswap 2) (groups_of sixteen.addr) ≡ 1 ∷ 0 ∷ 0 ∷ 2 ∷ 0 ∷ 0 ∷ 0 ∷ 3 ∷ []
unfolding groups_of byteswap to_bytes from_bytes
swaps_back = refl

-- A path that fits is refused, a longer one is copied past the end.
refused : new_unix (codes "/tmp/s") ≡ throws
unfolding new_unix
refused = refl

copied : new_unix (replicate 120 b'a') ≡ copies 121
unfolding new_unix
copied = refl
