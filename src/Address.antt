-- ===== src/Address.antt =====
-- sylar/sylar/address.h and address.cpp: socket addresses as the bytes that getAddr points to, and
-- their length. A little-endian machine with the structs of Linux.
pub mod Order
pub mod Port
pub mod Compress
pub mod Text
mod Tests
use custom_net_framework.Prelude.{
  ℕ, zero, suc, ◌+◌, ◌*◌, ◌/◌, ◌%◌, ◌^◌, ◌-◌, ◌<◌, ◌≤◌, ◌≡◌, Bool, true, false, not, ◌&&◌, ◌||◌,
  Option, none, some, List, [], ◌∷◌, ◌++◌, ◌==◌, leb, ltb, if◌then◌else◌, is_empty, length, take,
  drop, replicate, Bytes, codes, u16, u32, refl, arith,
}
use custom_net_framework.Endian.{to_bytes, from_bytes, byteswap}

-- What `getAddr` and `getAddrLen` return.
pub record Address : Type 0 where
  pub bytes : Bytes
  pub size : ℕ

-- `Address::getFamily`: the first two bytes.
pub get_family : Address → ℕ
get_family a = from_bytes (take 2 a.bytes)

-- `memcmp`: the sign of its result.
pub data Compared : Type 0 where
  below equal above : Compared

pub memcmp : ℕ → Bytes → Bytes → Compared
memcmp zero xs ys = equal
memcmp (suc n) [] ys = equal
memcmp (suc n) (x ∷ xs) [] = equal
memcmp (suc n) (x ∷ xs) (y ∷ ys) =
    let rest = memcmp n xs ys in if ltb x y then below else if ltb y x then above else rest

-- `Address::operator<`.
pub less : Address → Address → Bool
unfolding memcmp
less a b =
    let minlen = if leb a.size b.size then a.size else b.size in
    elim (memcmp minlen a.bytes b.bytes) [
      | below ↦ true
      | above ↦ false
      | equal ↦ ltb a.size b.size
    ]

-- `Address::operator==` and `operator!=`.
pub equals : Address → Address → Bool
unfolding memcmp
equals a b = a.size == b.size && elim (memcmp a.size a.bytes b.bytes) [ equal ↦ true | _ ↦ false ]

pub differs : Address → Address → Bool
unfolding equals
differs a b = not (equals a b)

-- `IPv4Address` and its sockaddr_in, with the numbers as the fields have them.
pub record IpV4Address : Type 0 where
  pub port : ℕ
  pub addr : ℕ

-- The assignment of a uint32_t to the uint16_t field of the port truncates.
pub new_ip_v4 : ℕ → ℕ → IpV4Address
new_ip_v4 address port = record { port = u16 (byteswap 4 port); addr = byteswap 4 address }

-- `getAddr` and `getAddrLen` of each class.
pub ip_v4_address : IpV4Address → Address
ip_v4_address a = record {
  bytes = to_bytes 2 2 ++ (to_bytes 2 a.port ++ (to_bytes 4 a.addr ++ replicate 8 0));
  size = 16;
}

pub get_port_4 : IpV4Address → ℕ
get_port_4 a = byteswap 2 a.port

pub set_port_4 : IpV4Address → ℕ → IpV4Address
set_port_4 a v = record a { port = u16 (byteswap 4 v) }

module _ (number : ℕ → Bytes) where
  -- `IPv4Address::insert`, for a stream that prints numbers so.
  pub insert_4 : IpV4Address → Bytes
  insert_4 a =
      let addr = byteswap 4 a.addr in
      number ((addr / 2 ^ 24) % 256)
      ++ (codes "."
          ++ (number ((addr / 2 ^ 16) % 256)
              ++ (codes "."
                  ++ (number ((addr / 2 ^ 8) % 256)
                      ++ (codes "."
                          ++ (number (addr % 256) ++ (codes ":" ++ number (byteswap 2 a.port))))))))

-- `broadcastAddress`, `networdAddress` and `subnetMask` of both classes.
pub broadcast_address : ℕ → Option Address
broadcast_address prefix_len = none

-- `IPv6Address`: the port, and the 16 bytes of the address.
pub record IpV6Address : Type 0 where
  pub port : ℕ
  pub addr : Bytes

pub new_ip_v6 : Bytes → ℕ → IpV6Address
new_ip_v6 address port = record { port = u16 (byteswap 4 port); addr = take 16 address }

pub ip_v6_address : IpV6Address → Address
ip_v6_address a = record {
  bytes = to_bytes 2 10 ++ (to_bytes 2 a.port ++ (replicate 4 0 ++ (a.addr ++ replicate 4 0)));
  size = 28;
}

pub get_port_6 : IpV6Address → ℕ
get_port_6 a = byteswap 2 a.port

pub set_port_6 : IpV6Address → ℕ → IpV6Address
set_port_6 a v = record a { port = u16 (byteswap 4 v) }

-- What the loop of `IPv6Address::insert` prints between the brackets: colons, and groups in hexadecimal.
pub data Token : Type 0 where
  colon : Token
  group : ℕ → Token

-- The eight elements of `addr`, in the machine's order.
pub groups_of : Bytes → List ℕ
groups_of [] = []
groups_of (x ∷ []) = []
groups_of (x ∷ y ∷ xs) = from_bytes (x ∷ y ∷ []) ∷ groups_of xs

abbrev pub colon_if : Bool → List Token
colon_if c = if c then colon ∷ [] else []

-- The loop, at an `i` that is not 0 if `later`, with `addr[i - 1]` and `used_zeros`, and the line
-- after it.
pub print_groups : Bool → ℕ → Bool → List ℕ → List Token
print_groups later before used [] = if not used && before == 0 then colon ∷ colon ∷ [] else []
print_groups later before used (g ∷ gs) =
    let compress = later && before == 0 && not used in
    let skip = print_groups true g used gs in
    let rest = print_groups true g (used || compress) gs in
    if g == 0 && not used
    then skip
    else colon_if compress ++ (colon_if later ++ (group (byteswap 2 g) ∷ rest))

module _ (number hex : ℕ → Bytes) where
  pub token_text : List Token → Bytes
  token_text [] = []
  token_text (colon ∷ ts) = b':' ∷ token_text ts
  token_text (group g ∷ ts) = hex g ++ token_text ts

  -- `IPv6Address::insert`, for a stream that prints numbers so in the two bases.
  unfoldable pub insert_6 : IpV6Address → Bytes
  unfolding print_groups groups_of token_text
  insert_6 a =
      codes "["
      ++ (token_text (print_groups false 1 false (groups_of a.addr))
          ++ (codes "]:" ++ number (byteswap 2 a.port)))

-- `UnixAddress(path)`: it throws, or writes this many bytes into the 108 of `sun_path`.
pub data MadeUnix : Type 0 where
  throws : MadeUnix
  copies : ℕ → MadeUnix

abbrev pub starts_zero : Bytes → Bool
starts_zero [] = false
starts_zero (c ∷ s) = c == 0

pub new_unix : Bytes → MadeUnix
new_unix path =
    let n = u32 (length path + 1) in
    let m_length = if not (is_empty path) && starts_zero path then u32 (n + 2 ^ 32 - 1) else n in
    if leb m_length 108 then throws else copies m_length

-- `UnixAddress()`.
pub default_unix : Address
default_unix = record { bytes = to_bytes 2 1 ++ replicate 108 0; size = 2 + 107 }

-- A C string: up to the first zero.
pub c_string : Bytes → Bytes
c_string [] = []
c_string (c ∷ s) = if c == 0 then [] else c ∷ c_string s

-- `UnixAddress::insert`. The byte 92 is a backslash.
pub insert_unix : Address → Bytes
unfolding c_string
insert_unix a =
    let sun_path = drop 2 a.bytes in
    if ltb 2 a.size && starts_zero sun_path
    then 92 ∷ b'0' ∷ take (a.size - 2 - 1) (drop 1 sun_path)
    else c_string sun_path

-- `UnknowAddress`.
pub new_unknow : ℕ → Address
new_unknow family = record { bytes = to_bytes 2 (u16 family) ++ replicate 14 0; size = 16 }

-- `UnknowAddress::insert`.
pub insert_unknow : (ℕ → Bytes) → Address → Bytes
unfolding get_family
insert_unknow number a = codes "[UnknowAddress family=" ++ (number (get_family a) ++ codes "]")
