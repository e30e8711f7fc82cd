-- ===== src/Http/Conn.antt =====
-- src/httpconn.cpp and include/httpconn.h: a connection, with its buffers, its request and its
-- response. What readv and writev give is an argument of `read` and `write`; the bytes that leave the
-- socket are part of the result of `write`. `is_et` and `src_dir` are the static members of that name.
-- Log output is left out.
pub mod Delivery
pub mod WriteLoop
pub mod Prepared
pub mod Arrivals
pub mod Counting
use idc.Prelude.{
  Bytes, ℕ, zero, suc, ◌+◌, ◌-◌, ◌%◌, ◌^◌, min, Bool, true, false, not, ◌&&◌, ◌||◌, List, [], ◌∷◌,
  ◌++◌, Option, none, some, Result, ok, fault, ◌>>=◌, ◌>>◌, require, assertion, exhausted,
  if◌then◌else◌, ltb, ◌==◌, length, take, slice, ℤ, pos, negsuc, ◌+ℤ◌, add64, sub64,
}
use idc.Http.Request
use idc.Http.Response
use idc.Buffer.{Buffer, readable_bytes, retrieve, retrieve_all, read_fd, Transfer, failed, moved}
use idc.Http.Request.{HttpRequest, is_keep_alive, parse}
use idc.Http.Response.{HttpResponse, Files, unmap_file, make_response, file_len}

-- struct iovec: `base` is a place in the vector of the write buffer or in the mapped file.
pub record Iovec : Type 0 where
  pub base : ℕ
  pub len : ℕ

pub record SockAddr : Type 0 where
  pub sin_addr : ℕ
  pub sin_port : ℕ

pub record HttpConn : Type 0 where
  pub fd : ℤ
  pub addr : SockAddr
  pub is_close : Bool
  pub iov_cnt : ℕ
  pub iov_0 : Iovec
  pub iov_1 : Iovec
  pub read_buff : Buffer
  pub write_buff : Buffer
  pub request : HttpRequest
  pub response : HttpResponse

-- userCount, and the descriptors that close() was called for, the last one first.
pub record Users : Type 0 where
  pub user_count : ℤ
  pub closed : List ℤ

-- The constructor leaves `iov_cnt` and the two vectors as they are in memory.
unfoldable pub new : ℕ → Iovec → Iovec → HttpConn
unfolding idc.Buffer.new idc.Http.Response.new
new iov_cnt iov_0 iov_1 = record {
  fd = negsuc 0;
  addr = record { sin_addr = 0; sin_port = 0 };
  is_close = true;
  iov_cnt = iov_cnt;
  iov_0 = iov_0;
  iov_1 = iov_1;
  read_buff = idc.Buffer.new 1024;
  write_buff = idc.Buffer.new 1024;
  request = idc.Http.Request.init;
  response = idc.Http.Response.new;
}

abbrev pub is_positive : ℤ → Bool
is_positive (pos n) = ltb 0 n
is_positive (negsuc n) = false

unfoldable pub init : Users → HttpConn → ℤ → SockAddr → Result (Users × HttpConn)
unfolding ◌+ℤ◌ retrieve_all
init users c fd addr = do
  require (is_positive fd) assertion
  ok (
    record users { user_count = users.user_count +ℤ pos 1 },
    record c {
      fd = fd;
      addr = addr;
      is_close = false;
      read_buff = retrieve_all c.read_buff;
      write_buff = retrieve_all c.write_buff;
    },
  )

unfoldable pub close : Users → HttpConn → Users × HttpConn
unfolding ◌+ℤ◌ unmap_file
close users c =
    let unmapped = record c { response = unmap_file c.response } in
    if c.is_close then (users, unmapped) else (
      record { user_count = users.user_count +ℤ negsuc 0; closed = c.fd ∷ users.closed },
      record unmapped { is_close = true },
    )

-- How readv ends: at the end of the stream, or with an errno.
abbrev pub ending : Option ℕ → Transfer Bytes
ending none = moved []
ending (some errno) = failed errno

-- The loop of read: `arrivals` is what readv delivers at one call after the other, and `last` how it
-- ends behind that. The arrivals that are left are part of the result.
unfoldable pub read :
    Bool → HttpConn → List Bytes → Option ℕ → Result (HttpConn × Transfer ℕ × List Bytes)
unfolding read_fd
read is_et c [] last = do
  (buff, len) ← read_fd c.read_buff (ending last)
  ok (record c { read_buff = buff }, len, [])
read is_et c ([] ∷ arrivals) last = do
  (buff, len) ← read_fd c.read_buff (moved [])
  ok (record c { read_buff = buff }, len, arrivals)
read is_et c ((x ∷ xs) ∷ arrivals) last = do
  (buff, len) ← read_fd c.read_buff (moved (x ∷ xs))
  elim is_et [
    | true ↦ read is_et (record c { read_buff = buff }) arrivals last
    | false ↦ ok (record c { read_buff = buff }, len, arrivals)
  ]

-- A size_t as an int.
unfoldable pub to_int : ℕ → ℤ
to_int n = let m = n % 2 ^ 32 in if ltb m (2 ^ 31) then pos m else negsuc (2 ^ 32 - 1 - m)

unfoldable pub to_write_bytes : HttpConn → ℤ
unfolding to_int
to_write_bytes c = to_int (add64 c.iov_0.len c.iov_1.len)

abbrev pub is_above : ℕ → ℤ → Bool
is_above k (pos n) = ltb k n
is_above k (negsuc n) = false

abbrev pub mapped : Option Bytes → Bytes
mapped none = []
mapped (some memory) = memory

-- The bytes that writev is given.
unfoldable pub offered : HttpConn → Bytes
offered c =
    slice c.iov_0.base (c.iov_0.base + c.iov_0.len) c.write_buff.buffer
    ++ (if c.iov_cnt == 2
        then slice c.iov_1.base (c.iov_1.base + c.iov_1.len) (mapped c.response.mm_file)
        else [])

-- What the loop of write does with `len` bytes that were written.
unfoldable pub written : HttpConn → ℕ → Result HttpConn
unfolding retrieve retrieve_all
written c len =
    if ltb c.iov_0.len len
    then (let rest = len - c.iov_0.len in
        let vectors = record c {
          iov_1 = record { base = c.iov_1.base + rest; len = sub64 c.iov_1.len rest };
        } in
        ok (
          if c.iov_0.len == 0 then vectors else record vectors {
            write_buff = retrieve_all c.write_buff;
            iov_0 = record { base = c.iov_0.base; len = 0 };
          }))
    else (do
      buff ← retrieve c.write_buff len
      ok (record c {
        iov_0 = record { base = c.iov_0.base + len; len = c.iov_0.len - len };
        write_buff = buff;
      }))

-- The loop of write. `accept` says for each call of writev whether it fails, or how many bytes the
-- socket has room for; writev moves no more than it is given. The errno that a call without bytes
-- leaves in *saveErrno is left out. Each round but the last moves a byte, so fuel above the number of
-- bytes offered is enough.
unfoldable pub write_loop :
    ℕ → Bool → HttpConn → (ℕ → Transfer ℕ) → Result (HttpConn × Transfer ℕ × Bytes)
unfolding offered written to_write_bytes
write_loop zero is_et c accept = fault exhausted
write_loop (suc fuel) is_et c accept = elim (accept 0) [
  | failed errno ↦ ok (c, failed errno, [])
  | moved room ↦
      let len = min room (length (offered c)) in
      let sent = take len (offered c) in
      elim (len == 0 || add64 c.iov_0.len c.iov_1.len == 0) [
        | true ↦ ok (c, moved len, sent)
        | false ↦ written c len >>= λ next. elim (is_et || is_above 10240 (to_write_bytes next)) [
          | true ↦ write_loop fuel is_et next (λ k. accept (suc k)) >>= λ (end, result, rest).
              ok (end, result, sent ++ rest)
          | false ↦ ok (next, moved len, sent)
        ]
      ]
]

unfoldable pub write : Bool → HttpConn → (ℕ → Transfer ℕ) → Result (HttpConn × Transfer ℕ × Bytes)
unfolding offered write_loop
write is_et c accept = write_loop (suc (length (offered c))) is_et c accept

-- The end of process: the vectors that the answer is written from.
unfoldable pub prepare : HttpConn → HttpConn
unfolding readable_bytes file_len
prepare c =
    let header = record c {
      iov_cnt = 1;
      iov_0 = record { base = c.write_buff.read_pos; len = readable_bytes c.write_buff };
    } in
    elim c.response.mm_file [
      | none ↦ header
      | some memory ↦
          if ltb 0 (file_len c.response)
          then record header { iov_cnt = 2; iov_1 = record { base = 0; len = file_len c.response } }
          else header
    ]

-- What `process` makes of the request: the response is prepared for it.
unfoldable pub answer : Files → Bytes → HttpConn → Result HttpConn
unfolding parse is_keep_alive idc.Http.Response.init
answer files src_dir c = do
  (request, buff, accepted) ← parse c.request c.read_buff
  response ←
      (if accepted
        then idc.Http.Response.init c.response src_dir request.path (is_keep_alive request)
            (pos 200)
        else idc.Http.Response.init c.response src_dir request.path false (pos 400))
  ok (record c { request = request; read_buff = buff; response = response })

unfoldable pub process : Files → Bytes → HttpConn → Result (HttpConn × Bool)
unfolding readable_bytes answer make_response prepare
process files src_dir c =
    let fresh = record c { request = idc.Http.Request.init } in
    if readable_bytes c.read_buff == 0 then ok (fresh, false) else (do
      answered ← answer files src_dir fresh
      (response, buff, fds) ← make_response files answered.response answered.write_buff
      ok (prepare (record answered { response = response; write_buff = buff }), true))
