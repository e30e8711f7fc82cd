-- ===== src/Address/Hosts.antt =====
-- The hosts that Address::Lookup of src/address.cpp is asked for.
use idc.Prelude.{
  Bytes, ◌≡◌, refl, ◌∙◌, Bool, false, [], ◌∷◌, ◌++◌, Option, none, some, if◌then◌else◌, ◌==◌,
}
use idc.Text.{is_empty, has}
use idc.Text.Search.{split_at-append, split_at_absent}
use idc.Address.Lookup.{parse_bracket, parse_host}

-- A name or a number, or a number in brackets, each with a service or without.
pub data HostText : Type 0 where
  plain : (node : Bytes) → HostText
  with_service : (node service : Bytes) → HostText
  bracketed : (node : Bytes) → HostText
  bracketed_with : (node service : Bytes) → HostText

abbrev pub host_text : HostText → Bytes
host_text (plain node) = node
host_text (with_service node service) = node ++ (b':' ∷ service)
host_text (bracketed node) = b'[' ∷ (node ++ (b']' ∷ []))
host_text (bracketed_with node service) = b'[' ∷ (node ++ (b']' ∷ b':' ∷ service))

abbrev pub host_parts : HostText → Bytes × Option Bytes
host_parts (plain node) = (node, none)
host_parts (with_service node service) = (node, some service)
host_parts (bracketed node) = (node, none)
host_parts (bracketed_with node service) = (node, some service)

abbrev pub starts_bracket : Bytes → Bool
starts_bracket [] = false
starts_bracket (c ∷ cs) = c == b'['

-- What the forms need. Without brackets a node with a ':', as fe80::1, is not read as it is written.
abbrev pub IsHost : HostText → Type 0
IsHost (plain node) = (starts_bracket node ≡ false) × (has b':' node ≡ false)
IsHost (with_service node service) =
    (starts_bracket node ≡ false)
    × (is_empty node ≡ false)
    × (has b':' node ≡ false)
    × (has b':' service ≡ false)
IsHost (bracketed node) = (is_empty node ≡ false) × (has b']' node ≡ false)
IsHost (bracketed_with node service) = (is_empty node ≡ false) × (has b']' node ≡ false)

parse_bracket_plain : (host : Bytes) → starts_bracket host ≡ false → parse_bracket host ≡ ([], none)
unfolding parse_bracket
parse_bracket_plain [] h = refl
parse_bracket_plain (c ∷ cs) h = rw (h, parse_bracket) refl

-- The service behind a bracket
abbrev behind_bracket : Bytes → Option Bytes
behind_bracket [] = none
behind_bracket (d ∷ ds) = if d == b':' then some ds else none

parse_bracket_closed :
    (node rest : Bytes)
    → has b']' node ≡ false
    → parse_bracket (b'[' ∷ (node ++ (b']' ∷ rest))) ≡ (node, behind_bracket rest)
unfolding parse_bracket
parse_bracket_closed node [] h = rw (split_at-append b']' node [] h, parse_bracket) refl
parse_bracket_closed node (d ∷ ds) h = rw (split_at-append b']' node (d ∷ ds) h, parse_bracket) refl

starts_bracket-append :
    (node rest : Bytes)
    → is_empty node ≡ false
    → starts_bracket (node ++ rest) ≡ starts_bracket node
starts_bracket-append [] rest h = absurd (cc h)
starts_bracket-append (c ∷ cs) rest h = refl

-- The node and the service of a host are what it is written with, in four forms: a node that does not
-- start with '[' and has no ':'; such a node, if it is not empty, with ':' and a service without ':' behind
-- it; a node that is not empty and has no ']', in brackets; and such a node in brackets with ':' and any
-- service behind it.
pub parse_host-host_text : (h : HostText) → IsHost h → parse_host (host_text h) ≡ host_parts h
unfolding parse_host
parse_host-host_text (plain node) (bracket, colon) =
    rw (parse_bracket_plain node bracket, split_at_absent b':' node colon, parse_host) refl
parse_host-host_text (with_service node service) (bracket, filled, colon, single) =
    rw
      (
        parse_bracket_plain (node ++ (b':' ∷ service))
            (starts_bracket-append node (b':' ∷ service) filled ∙ bracket),
        split_at-append b':' node service colon,
        single,
        filled,
        parse_host,
      )
      refl
parse_host-host_text (bracketed node) (filled, closed) =
    rw (parse_bracket_closed node [] closed, filled, parse_host) refl
parse_host-host_text (bracketed_with node service) (filled, closed) =
    rw (parse_bracket_closed node (b':' ∷ service) closed, filled, parse_host) refl
