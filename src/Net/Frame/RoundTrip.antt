-- ===== src/Net/Frame/RoundTrip.antt =====
-- TcpWrite and TcpRead of src/_public.cpp: a message that one end writes is read by the other.
use idc.Prelude.{
  Bytes, ℕ, ◌+◌, ◌%◌, ◌^◌, ◌≤◌, ◌<◌, ◌≡◌, refl, sym, ap, subst, ◌∙◌, Bool, true, false, not, ◌&&◌,
  ◌||◌, List, [], ◌∷◌, ◌++◌, append_assoc, append-nil, ok, Returns, Returns-bind, Returns-mono,
  bind_ok, ◌>>=◌, arith, length, length-append, length-replicate, take, drop, length-drop, take-all,
  drop-all, replicate, ℤ, pos, lt→ltb, le→leb,
}
use idc.Strings.Joined.{write_behind}
use idc.Net.Stream.{Incoming, int_part, readn, writen}
use idc.Net.Stream.Whole.{Steady, ReadAll, readn_loop_lem, writen_loop_lem}
use idc.Net.Frame.{
  htonl_bytes, frame_array, network_number, is_minus_one, is_above_zero, Message, tcp_read,
  message_length, tcp_write,
}

int_part_small : (n : ℕ) → n < 2 ^ 31 → int_part n ≡ n
unfolding int_part
int_part_small n h =
    let same : n % 2 ^ 32 ≡ n = omega arith in rw (same, lt→ltb n (2 ^ 31) h, int_part) refl

network_number-htonl_bytes : (n : ℕ) → n < 2 ^ 32 → network_number 0 (htonl_bytes n) ≡ n
unfolding network_number htonl_bytes
network_number-htonl_bytes n h = omega arith

-- The array that is sent.
frame_array_lem :
    (payload : Bytes)
    → frame_array payload (length payload) ≡ ok (htonl_bytes (length payload) ++ payload)
unfolding frame_array htonl_bytes
frame_array_lem payload =
    let n = length payload in
    let blank : Bytes = replicate (n + 4) 0 in
    let size : length blank ≡ n + 4 = length-replicate (n + 4) 0 in
    let whole : take n payload ≡ payload = take-all n payload (omega arith) in
    let behind = drop 4 blank in
    let room : length behind ≡ n = omega (arith, size, length-drop 4 blank) in
    rw (le→leb n n (omega arith), frame_array)
      (bind_ok _ (write_behind [] blank (htonl_bytes n) 0 refl (omega (arith, size)))
        ∙ write_behind (htonl_bytes n) behind (take n payload) 4 refl
            (rw whole (omega (arith, room)))
        ∙ rw (whole, drop-all n behind (omega (arith, room)), append-nil payload) refl)

-- With `ibuflen` the length of the bytes, the length and they are sent.
pub tcp_write_lem :
    (sockfd : ℤ) (payload sent : Bytes) (chunks : List ℕ)
    → is_minus_one sockfd ≡ false
    → 0 < length payload
    → length payload + 4 < 2 ^ 31
    → Steady (length payload + 4) chunks
    → Returns
        (tcp_write sockfd payload (pos (length payload)) (record { bytes = sent; chunks = chunks }))
        (λ r. (r.0 ≡ true) × (r.1.bytes ≡ sent ++ (htonl_bytes (length payload) ++ payload)))
unfolding tcp_write message_length writen
tcp_write_lem sockfd [] sent chunks fd filled small steady = absurd (omega arith)
tcp_write_lem sockfd (b ∷ bs) sent chunks fd filled small steady =
    let payload : Bytes = b ∷ bs in
    let str = htonl_bytes (length payload) ++ payload in
    let size : length str ≡ length payload + 4 =
      omega (arith, length-append (htonl_bytes (length payload)) payload) in
    rw
      (
        fd,
        frame_array_lem payload,
        tcp_write,
        int_part_small (length payload + 4) small,
        le→leb (length payload + 4) (length str) (omega (arith, size)),
        take-all (length payload + 4) str (omega (arith, size)),
      )
      (writen_loop_lem (length payload + 4) sent str chunks (omega (arith, size))
        (omega (arith, size), steady.1))

readn_lem :
    (bytes rest buffer : Bytes) (chunks : List ℕ) (n : ℕ)
    → length bytes < 2 ^ 31
    → length bytes ≤ length buffer
    → Steady (length bytes + n) chunks
    → Returns
        (readn (record { bytes = bytes ++ rest; chunks = chunks }) buffer (length bytes))
        (ReadAll (bytes ++ drop (length bytes) buffer) rest n)
unfolding readn
readn_lem bytes rest buffer chunks n small room steady =
    rw (int_part_small (length bytes) small, readn)
      (readn_loop_lem (length bytes) bytes rest [] buffer chunks 0 n (omega arith) refl room steady)

and_false : (b : Bool) → (b && false) ≡ false
and_false true = refl
and_false false = refl

-- The length in front of a message
head_read :
    (payload rest : Bytes) (chunks : List ℕ)
    → Steady (4 + length payload) chunks
    → Returns
        (readn
          (record { bytes = htonl_bytes (length payload) ++ (payload ++ rest); chunks = chunks })
          (replicate 4 0)
          4)
        (ReadAll (htonl_bytes (length payload)) (payload ++ rest) (length payload))
unfolding htonl_bytes
head_read payload rest chunks steady =
    readn_lem (htonl_bytes (length payload)) (payload ++ rest) (replicate 4 0) chunks
      (length payload) (omega arith) (omega arith) steady

-- What a reader has of a message.
abbrev pub Read : Bytes → Bytes → Bytes → Message → Type 0
Read payload rest buffer m =
    (m.success ≡ true)
    × (m.buffer ≡ payload ++ drop (length payload) buffer)
    × (m.ibuflen ≡ length payload)
    × (m.incoming.bytes ≡ rest)

body-Read :
    (payload rest buffer : Bytes) (s : Incoming) (len : ℕ)
    → len ≡ length payload
    → length payload < 2 ^ 31
    → length payload ≤ length buffer
    → s.bytes ≡ payload ++ rest
    → Steady (length payload) s.chunks
    → Returns
        (readn s buffer len >>= λ body. ok (record {
          success = body.success;
          buffer = body.buffer;
          ibuflen = len;
          incoming = body.incoming;
        }))
        (Read payload rest buffer)
body-Read payload rest buffer s len e small room left steady =
    Returns-bind (readn s buffer len) _ (ReadAll (payload ++ drop (length payload) buffer) rest 0)
      (Read payload rest buffer)
      (subst
        (λ b.
          Returns (readn (record { bytes = b; chunks = s.chunks }) buffer len)
            (ReadAll (payload ++ drop (length payload) buffer) rest 0))
        (sym left)
        (subst
          (λ n.
            Returns (readn (record { bytes = payload ++ rest; chunks = s.chunks }) buffer n)
              (ReadAll (payload ++ drop (length payload) buffer) rest 0))
          (sym e) (readn_lem payload rest buffer s.chunks 0 small room (omega arith, steady.1))))
      (λ body (done, filled, after, _). (done, filled, e, after))

-- A message on a stream is read to the front of the buffer, with its length.
pub tcp_read_lem :
    (sockfd itimeout : ℤ) (polled : Bool) (payload rest buffer : Bytes) (old : ℕ) (chunks : List ℕ)
    → is_minus_one sockfd ≡ false
    → polled ≡ true
    → length payload < 2 ^ 31
    → length payload ≤ length buffer
    → Steady (4 + length payload) chunks
    → Returns
        (tcp_read sockfd polled itimeout buffer old
          (record { bytes = htonl_bytes (length payload) ++ (payload ++ rest); chunks = chunks }))
        (Read payload rest buffer)
unfolding tcp_read
tcp_read_lem sockfd itimeout polled payload rest buffer old chunks fd ready small room steady =
    let n = length payload in
    let stays : (is_minus_one sockfd
          || ((is_above_zero itimeout || is_minus_one itimeout) && not polled))
        ≡ false =
      rw (fd, ready) (and_false (is_above_zero itimeout || is_minus_one itimeout)) in
    rw (stays, tcp_read)
      (Returns-bind
        (readn (record { bytes = htonl_bytes n ++ (payload ++ rest); chunks = chunks })
          (replicate 4 0) 4)
        _ (ReadAll (htonl_bytes n) (payload ++ rest) n) (Read payload rest buffer)
        (head_read payload rest chunks steady)
        (λ head (done, filled, left, more). rw done (
          body-Read payload rest buffer head.incoming (network_number 0 head.buffer)
            (ap (network_number 0) filled ∙ network_number-htonl_bytes n (omega arith)) small room
            left more)))

-- What TcpWrite sends of bytes that are not empty, with their number as `ibuflen`, is read back by
-- TcpRead, with what follows left on the stream, however send and recv split it, as long as each call
-- moves something, there are calls enough, the buffer has room and the number fits into an int.
pub tcp_read-tcp_write :
    (writer reader itimeout : ℤ) (payload rest buffer : Bytes) (old : ℕ) (sends recvs : List ℕ)
    → is_minus_one writer ≡ false
    → is_minus_one reader ≡ false
    → 0 < length payload
    → length payload + 4 < 2 ^ 31
    → length payload ≤ length buffer
    → Steady (length payload + 4) sends
    → Steady (4 + length payload) recvs
    → Returns
        (tcp_write writer payload (pos (length payload)) (record { bytes = []; chunks = sends }))
        (λ (written, s).
          (written ≡ true)
          × Returns
              (tcp_read reader true itimeout buffer old
                (record { bytes = s.bytes ++ rest; chunks = recvs }))
              (Read payload rest buffer))
tcp_read-tcp_write writer reader itimeout payload rest buffer old sends recvs fd fd' filled small
      room steady steady' =
    Returns-mono
      (tcp_write writer payload (pos (length payload)) (record { bytes = []; chunks = sends })) _ _
      (tcp_write_lem writer payload [] sends fd filled small steady)
      (λ (written, s) (done, sent). (
        done,
        subst
            (λ b.
              Returns
                (tcp_read reader true itimeout buffer old (record { bytes = b; chunks = recvs }))
                (Read payload rest buffer))
            (sym (append_assoc (htonl_bytes (length payload)) payload rest)
              ∙ ap (λ b. b ++ rest) (sym sent))
            (tcp_read_lem reader itimeout true payload rest buffer old recvs fd' refl (omega arith)
              room steady'),
      ))
