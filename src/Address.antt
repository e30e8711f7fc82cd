-- ===== src/Address.antt =====
-- src/address.cpp, include/address.h and include/endian.h on a little-endian machine: IPv4 addresses.
-- sin_port and sin_addr are the bytes of memory, in the order of the network, and the operations on
-- 32-bit words act on each byte. AF_INET is 2. getaddrinfo, getifaddrs and inet_pton are arguments.
pub mod Networks
pub mod Lookup
pub mod Hosts
use Prim.Native.Nat.{bit_and, bit_or}
use idc.Prelude.{
  Bytes, ℕ, zero, suc, ◌+◌, ◌-◌, ◌*◌, ◌/◌, ◌%◌, ◌^◌, min, Bool, true, false, not, ◌&&◌, ◌||◌, List,
  [], ◌∷◌, ◌++◌, map, Option, none, some, Result, ok, fault, ◌>>=◌, overflow, if◌then◌else◌, ltb,
  leb, ◌==◌, length, take, replicate, pos,
}
use idc.Text.{codes, equal, is_empty, c_string}
use idc.Text.Decimal.{to_string}
use idc.Net.Frame.{htonl_bytes, network_number}

-- m_addr
pub record IPv4Address : Type 0 where
  pub sin_family : ℕ
  pub sin_port : Bytes
  pub sin_addr : Bytes

-- The two bytes of byteswapOnLittleEndian of a uint16_t.
unfoldable pub swap_port : ℕ → Bytes
swap_port port = port / 256 % 256 ∷ port % 256 ∷ []

-- The constructor from numbers
unfoldable pub make_address : ℕ → ℕ → IPv4Address
unfolding swap_port htonl_bytes
make_address address port = record {
  sin_family = 2;
  sin_port = swap_port port;
  sin_addr = htonl_bytes address;
}

-- Address::Create of what the system gives: a family, with the address if it is AF_INET.
unfoldable pub create : Option (ℕ × IPv4Address) → Option IPv4Address
create none = none
create (some (family, a)) = if family == 2 then some (record a { sin_family = family }) else none

-- CreateMask<uint32_t>. The shift is that of an int, and so is the subtraction.
unfoldable pub create_mask : ℕ → Result ℕ
create_mask bits =
    let n = (2 ^ 32 + 32 - bits) % 2 ^ 32 in if ltb n 31 then ok (2 ^ n - 1) else fault overflow

-- The loop of CountBytes, each round of which takes a bit out, so fuel 32 is enough.
unfoldable pub count_loop : ℕ → ℕ → ℕ → ℕ
count_loop zero value result = result
count_loop (suc fuel) value result =
    let rest = count_loop fuel (bit_and value (value - 1)) (result + 1) in
    if value == 0 then result else rest

unfoldable pub count_bytes : ℕ → ℕ
unfolding count_loop
count_bytes value = count_loop 32 value 0

abbrev pub zip_bytes : (ℕ → ℕ → ℕ) → Bytes → Bytes → Bytes
zip_bytes f [] bs = []
zip_bytes f (a ∷ as') [] = []
zip_bytes f (a ∷ as') (b ∷ bs) = f a b ∷ zip_bytes f as' bs

unfoldable pub broadcast_address : IPv4Address → ℕ → Result (Option IPv4Address)
unfolding create_mask htonl_bytes
broadcast_address a prefix_len =
    if ltb 32 prefix_len
    then ok none
    else create_mask prefix_len >>= λ mask.
        ok (some (record a { sin_addr = zip_bytes bit_or a.sin_addr (htonl_bytes mask) }))

-- networdAddress
unfoldable pub network_address : IPv4Address → ℕ → Result (Option IPv4Address)
unfolding create_mask htonl_bytes
network_address a prefix_len =
    if ltb 32 prefix_len
    then ok none
    else create_mask prefix_len >>= λ mask.
        ok (some (record a { sin_addr = zip_bytes bit_and a.sin_addr (htonl_bytes mask) }))

unfoldable pub subnet_mask : ℕ → Result IPv4Address
unfolding create_mask htonl_bytes
subnet_mask prefix_len = create_mask prefix_len >>= λ mask. ok (record {
  sin_family = 2;
  sin_port = 0 ∷ 0 ∷ [];
  sin_addr = map (λ b. 255 - b) (htonl_bytes mask);
})

unfoldable pub get_port : IPv4Address → ℕ
unfolding network_number
get_port a = network_number 0 a.sin_port

unfoldable pub set_port : IPv4Address → ℕ → IPv4Address
unfolding swap_port
set_port a v = record a { sin_port = swap_port v }

-- insert, and toString
unfoldable pub address_to_string : IPv4Address → Bytes
unfolding network_number get_port to_string
address_to_string a =
    let addr = network_number 0 a.sin_addr in
    to_string (pos (addr / 2 ^ 24 % 256))
    ++ (b'.'
        ∷ (to_string (pos (addr / 2 ^ 16 % 256))
            ++ (b'.'
                ∷ (to_string (pos (addr / 2 ^ 8 % 256))
                    ++ (b'.'
                        ∷ (to_string (pos (addr % 256))
                            ++ (b':' ∷ to_string (pos (get_port a)))))))))

-- The 16 bytes of a sockaddr_in, whose sin_zero is zero.
unfoldable pub get_addr : IPv4Address → Bytes
get_addr a = a.sin_family % 256 ∷ a.sin_family / 256 ∷ (a.sin_port ++ (a.sin_addr ++ replicate 8 0))

-- memcmp of as many bytes: whether the first is lower.
unfoldable pub is_lower : Bytes → Bytes → Bool
is_lower [] bs = false
is_lower (a ∷ rest) [] = false
is_lower (a ∷ rest) (b ∷ bs) = if a == b then is_lower rest bs else ltb a b

-- The operators <, == and != of Address, on the bytes of getAddr().
unfoldable pub less_address : Bytes → Bytes → Bool
unfolding is_lower
less_address lhs rhs =
    let minlen = min (length lhs) (length rhs) in
    if is_lower (take minlen lhs) (take minlen rhs)
    then true
    else if is_lower (take minlen rhs) (take minlen lhs)
    then false
    else ltb (length lhs) (length rhs)

unfoldable pub equal_address : Bytes → Bytes → Bool
unfolding equal
equal_address lhs rhs = length lhs == length rhs && equal lhs rhs

unfoldable pub differ_address : Bytes → Bytes → Bool
unfolding equal_address
differ_address lhs rhs = not (equal_address lhs rhs)
