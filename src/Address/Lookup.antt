-- ===== src/Address/Lookup.antt =====
-- Address::Lookup and what uses it in src/address.cpp. `getaddrinfo` gives a list of families with their
-- addresses, or an error, for a node and a service that may be null; `getifaddrs` gives interfaces.
use idc.Prelude.{
  Bytes, ℕ, Bool, true, false, not, ◌&&◌, ◌||◌, List, [], ◌∷◌, ◌++◌, map, Option, none, some,
  Result, ok, fault, ◌>>=◌, bad_access, if◌then◌else◌, ◌==◌,
}
use idc.Text.{codes, equal, is_empty, has, split_at, c_string}
use idc.Address.{IPv4Address, create, count_bytes, make_address, swap_port, set_port}

-- What stands in brackets at the start of `host`, as `node`, and behind a ':' that follows, as
-- `service`.
unfoldable pub parse_bracket : Bytes → Bytes × Option Bytes
unfolding split_at
parse_bracket [] = ([], none)
parse_bracket (c ∷ cs) = elim (c == b'[') [
  | false ↦ ([], none)
  | true ↦ elim (split_at b']' cs) [
    | none ↦ ([], none)
    | some (node, []) ↦ (node, none)
    | some (node, d ∷ ds) ↦ (node, if d == b':' then some ds else none)
  ]
]

-- The part of Lookup that finds the node and the service.
unfoldable pub parse_host : Bytes → Bytes × Option Bytes
unfolding parse_bracket split_at
parse_host host =
    let (node, service) = parse_bracket host in
    if not (is_empty node) then (node, service) else elim (split_at b':' host) [
      | none ↦ (host, none)
      | some (before, behind) ↦
          if has b':' behind
          then (host, some (b':' ∷ behind))
          else if is_empty before
          then (host, some behind)
          else (before, some behind)
    ]

abbrev pub c_service : Option Bytes → Option Bytes
c_service none = none
c_service (some service) = some (c_string service)

abbrev pub AddrInfo : Type 0
AddrInfo = Bytes → Option Bytes → Option (List (Option (ℕ × IPv4Address)))

module _ (getaddrinfo : AddrInfo) where
  -- Lookup adds to `result`, and says whether that is not empty.
  unfoldable pub lookup_addresses :
      List (Option IPv4Address) → Bytes → Bool × List (Option IPv4Address)
  unfolding parse_host create c_string
  lookup_addresses result host =
      let (node, service) = parse_host host in
      elim (getaddrinfo (c_string node) (c_service service)) [
        | none ↦ (false, result)
        | some results ↦
            let found = result ++ map (λ a. create a) results in
            (elim found [ [] ↦ false | a ∷ rest ↦ true ], found)
      ]

  -- LookupAny
  unfoldable pub lookup_any : Bytes → Option IPv4Address
  unfolding lookup_addresses
  lookup_any host =
      let (success, result) = lookup_addresses [] host in
      if success then elim result [ [] ↦ none | a ∷ rest ↦ a ] else none

  -- The loop of LookupAnyIPAddress
  unfoldable pub first_address : List (Option IPv4Address) → Option IPv4Address
  first_address [] = none
  first_address (none ∷ rest) = first_address rest
  first_address (some a ∷ rest) = some a

  unfoldable pub lookup_any_ip : Bytes → Option IPv4Address
  unfolding lookup_addresses first_address
  lookup_any_ip host =
      let (success, result) = lookup_addresses [] host in
      if success then first_address result else none

-- IPAddress::Create, where `found` is the first result of getaddrinfo.
unfoldable pub create_ip : Option (Option (ℕ × IPv4Address)) → ℕ → Option IPv4Address
unfolding create set_port
create_ip none port = none
create_ip (some found) port = elim (create found) [ none ↦ none | some a ↦ some (set_port a port) ]

-- IPv4Address::Create, where `parsed` is what inet_pton stores.
unfoldable pub create_ipv4 : Option Bytes → ℕ → Option IPv4Address
unfolding make_address swap_port
create_ipv4 none port = none
create_ipv4 (some sin_addr) port =
    some (record (make_address 0 0) { sin_port = swap_port port; sin_addr = sin_addr })

-- What getifaddrs says of an interface; `address` is null for one that has none.
pub record Interface : Type 0 where
  pub name : Bytes
  pub address : Option (ℕ × IPv4Address)
  pub netmask : ℕ

abbrev pub Interfaces : Type 0
Interfaces = List (Bytes × (IPv4Address × ℕ))

-- The loop of GetInterfaceAddresses. The multimap is the list of its entries, in the order in which
-- they were inserted.
unfoldable pub interface_loop : ℕ → List Interface → Result Interfaces
unfolding create count_bytes
interface_loop family [] = ok []
interface_loop family (next ∷ rest) = elim next.address [
  | none ↦ fault bad_access
  | some (sa_family, a) ↦
      if not (family == 0) && not (family == sa_family)
      then interface_loop family rest
      else elim (create (some (sa_family, a))) [
        | none ↦ interface_loop family rest
        | some addr ↦ interface_loop family rest >>= λ found.
            ok ((next.name, (addr, count_bytes next.netmask)) ∷ found)
      ]
]

unfoldable pub get_interfaces : Option (List Interface) → ℕ → Result (Bool × Interfaces)
unfolding interface_loop
get_interfaces none family = ok (false, [])
get_interfaces (some results) family = interface_loop family results >>= λ found.
    ok (elim found [ [] ↦ false | a ∷ rest ↦ true ], found)

-- The entries of one name
unfoldable pub equal_range : Bytes → Interfaces → List (IPv4Address × ℕ)
unfolding equal
equal_range iface [] = []
equal_range iface ((name, entry) ∷ rest) =
    if equal name iface then entry ∷ equal_range iface rest else equal_range iface rest

-- GetInterfaceAddresses of one interface. AF_UNSPEC is 0.
unfoldable pub get_interface :
    Option (List Interface) → Bytes → ℕ → Result (Bool × List (IPv4Address × ℕ))
unfolding get_interfaces equal_range make_address equal
get_interface results iface family =
    if is_empty iface || equal iface (codes "*")
    then ok (true, if family == 2 || family == 0 then (make_address 0 0, 0) ∷ [] else [])
    else get_interfaces results family >>= λ (success, found).
        if success
        then (let result = equal_range iface found in
            ok (elim result [ [] ↦ false | a ∷ rest ↦ true ], result))
        else ok (false, [])
