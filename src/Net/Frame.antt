-- ===== src/Net/Frame.antt =====
-- TcpRead and TcpWrite of src/_public.cpp on a little-endian machine: a message is its length, four
-- bytes with the highest first, and its bytes. What poll gives is an argument.
pub mod RoundTrip
use idc.Prelude.{
  Bytes, ℕ, zero, suc, ◌+◌, ◌*◌, ◌/◌, ◌%◌, ◌^◌, Bool, true, false, not, ◌&&◌, ◌||◌, [], ◌∷◌, ◌++◌,
  Result, ok, fault, ◌>>=◌, ◌>>◌, require, out_of_range, if◌then◌else◌, ltb, leb, ◌==◌, length,
  take, replicate, ℤ, pos, negsuc,
}
use idc.Buffer.{copy_at}
use idc.Strings.{strlen}
use idc.Net.Stream.{Incoming, Outgoing, Received, readn, writen}

-- The four bytes of htonl(n) in memory, the number that four bytes of memory are, and ntohl of it.
unfoldable pub htonl_bytes : ℕ → Bytes
htonl_bytes n = n / 2 ^ 24 % 256 ∷ n / 2 ^ 16 % 256 ∷ n / 2 ^ 8 % 256 ∷ n % 256 ∷ []

unfoldable pub host_number : Bytes → ℕ
host_number [] = 0
host_number (c ∷ cs) = c + 256 * host_number cs

unfoldable pub network_number : ℕ → Bytes → ℕ
network_number acc [] = acc
network_number acc (c ∷ cs) = network_number (acc * 256 + c) cs

-- `sockfd == -1`
abbrev pub is_minus_one : ℤ → Bool
is_minus_one (pos n) = false
is_minus_one (negsuc n) = n == 0

abbrev pub is_above_zero : ℤ → Bool
is_above_zero (pos n) = ltb 0 n
is_above_zero (negsuc n) = false

pub record Message : Type 0 where
  pub success : Bool
  pub buffer : Bytes
  pub ibuflen : ℕ
  pub incoming : Incoming

-- TcpRead. `polled` is whether the poll finds something to read; `ibuflen` is the old length, and a
-- length is the unsigned number of its 32 bits.
unfoldable pub tcp_read : ℤ → Bool → ℤ → Bytes → ℕ → Incoming → Result Message
unfolding readn host_number network_number
tcp_read sockfd polled itimeout buffer ibuflen s =
    let waits = is_above_zero itimeout || is_minus_one itimeout in
    let stops = is_minus_one sockfd || (waits && not polled) in
    if stops
    then ok (record { success = false; buffer = buffer; ibuflen = ibuflen; incoming = s })
    else readn s (replicate 4 0) 4 >>= λ head.
        if head.success
        then (let len = network_number 0 head.buffer in
            readn head.incoming buffer len >>= λ body. ok (record {
              success = body.success;
              buffer = body.buffer;
              ibuflen = len;
              incoming = body.incoming;
            }))
        else ok (record {
          success = false;
          buffer = buffer;
          ibuflen = host_number head.buffer;
          incoming = head.incoming;
        })

-- `ibuflen == 0` stands for the length of the string; an array of a negative size, and a copy of one,
-- are out of range.
unfoldable pub message_length : Bytes → ℤ → Result ℕ
unfolding strlen
message_length buffer (pos zero) = strlen buffer
message_length buffer (pos (suc n)) = ok (suc n)
message_length buffer (negsuc n) = fault out_of_range

-- The array TBuffer, with the length and the bytes copied to it.
unfoldable pub frame_array : Bytes → ℕ → Result Bytes
unfolding htonl_bytes copy_at
frame_array buffer ilen =
    require (leb ilen (length buffer)) out_of_range
    >> copy_at (replicate (ilen + 4) 0) 0 (htonl_bytes ilen)
    >>= λ headed. copy_at headed 4 (take ilen buffer)

-- TcpWrite
unfoldable pub tcp_write : ℤ → Bytes → ℤ → Outgoing → Result (Bool × Outgoing)
unfolding message_length frame_array writen
tcp_write sockfd buffer ibuflen s =
    if is_minus_one sockfd
    then ok (false, s)
    else message_length buffer ibuflen >>= λ ilen.
        frame_array buffer ilen >>= λ whole. writen s whole (ilen + 4)
