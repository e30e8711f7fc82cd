-- ===== src/Tests/AddressRuns.antt =====
-- Runs of src/address.cpp on small inputs.
use idc.Prelude.{◌≡◌, refl, [], ◌∷◌, some, ok, arith}
use idc.Text.{codes}
use idc.Address.{IPv4Address, broadcast_address, network_address, subnet_mask, address_to_string}
use idc.Address.Networks.{broadcast_address-each_byte}
use idc.Address.Lookup.{parse_host}
use idc.Address.Hosts.{bracketed_with, parse_host-host_text}

-- 192.168.17.130, port 80
abbrev address : IPv4Address
address = record { sin_family = 2; sin_port = 0 ∷ 80 ∷ []; sin_addr = 192 ∷ 168 ∷ 17 ∷ 130 ∷ [] }

printed : address_to_string address ≡ codes "192.168.17.130:80"
unfolding address_to_string
printed = refl

-- With a prefix of 20 bits, the "network address" is 0.0.1.130.
broadcast_address-each_byte_example :
    (broadcast_address address 20
      ≡ ok (some (record address { sin_addr = 192 ∷ 168 ∷ 31 ∷ 255 ∷ [] })))
    × (subnet_mask 20
        ≡ ok
            (record { sin_family = 2; sin_port = 0 ∷ 0 ∷ []; sin_addr = 255 ∷ 255 ∷ 240 ∷ 0 ∷ [] }))
    × (network_address address 20 ≡ ok (some (record address { sin_addr = 0 ∷ 0 ∷ 1 ∷ 130 ∷ [] })))
broadcast_address-each_byte_example =
    broadcast_address-each_byte 20 (omega arith) (omega arith) address 192 168 17 130 refl
      (omega arith) (omega arith) (omega arith) (omega arith)

parse_host-host_text_example : parse_host (codes "[::1]:80") ≡ (codes "::1", some (codes "80"))
parse_host-host_text_example =
    parse_host-host_text (bracketed_with (codes "::1") (codes "80")) (refl, refl)

-- Without brackets the text behind the first ':' is passed on as the service.
unbracketed : parse_host (codes "fe80::1") ≡ (codes "fe80::1", some (codes "::1"))
unfolding parse_host
unbracketed = refl
