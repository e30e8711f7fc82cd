-- ===== src/Tests/ConnRuns.antt =====
-- Connections of src/httpconn.cpp.
use idc.Prelude.{
  Bytes, ℕ, zero, suc, ◌≡◌, refl, Bool, true, false, List, [], ◌∷◌, ok, ◌>>=◌, Result, pos, ℤ, some,
  Returns, arith,
}
use idc.Text.{codes}
use idc.Buffer.{Transfer, failed, moved}
use idc.Http.Response.{make_response, file_len}
use idc.Http.Conn.{HttpConn, Users, init, close, read, write, prepare}
use idc.Http.Conn.Delivery.{Ready}
use idc.Http.Conn.WriteLoop.{Delivered, write-Delivered}
use idc.Http.Conn.Prepared.{Sends, prepare-Sends}
use idc.Http.Conn.Arrivals.{Received, read-Received}
use idc.Http.Conn.Counting.{Event, accepted, closes, step, run, open_count, run-open_count}
use idc.Tests.ResponseRuns.{site, asked, page}

-- A connection of a client whose answer stands in the write buffer, with a file behind it.
abbrev answering : HttpConn
answering = record {
  fd = pos 7;
  addr = record { sin_addr = 1; sin_port = 80 };
  is_close = false;
  iov_cnt = 2;
  iov_0 = record { base = 1; len = 3 };
  iov_1 = record { base = 0; len = 12 };
  read_buff = record { buffer = 0 ∷ 0 ∷ []; read_pos = 0; write_pos = 0 };
  write_buff = record { buffer = 1 ∷ 2 ∷ 3 ∷ 4 ∷ []; read_pos = 1; write_pos = 4 };
  request = idc.Http.Request.init;
  response = record (asked (codes "/a.html")) { mm_file = some page };
}

answering-Ready : Ready answering
answering-Ready = record {
  valid = record { ordered = omega arith; within = omega arith; bounded = omega arith };
  len_0 = refl;
  same_0 = refl;
  len_1 = λ _. refl;
  short = omega arith;
  sizes = omega arith;
}

-- A socket that takes five bytes and then is full.
abbrev socket : ℕ → Transfer ℕ
socket zero = moved 5
socket (suc k) = failed 11

abbrev wire_of : Result (HttpConn × Transfer ℕ × Bytes) → Result (Transfer ℕ × Bytes)
wire_of r = r >>= λ x. ok (x.1, x.2)

write_run : wire_of (write true answering socket) ≡ ok (failed 11, 2 ∷ 3 ∷ 4 ∷ b'<' ∷ b'p' ∷ [])
unfolding write
write_run = refl

write-Delivered_example : Returns (write true answering socket) (Delivered true answering)
write-Delivered_example = write-Delivered true answering socket answering-Ready

read-Received_example :
    Returns
      (read true answering ((1 ∷ 2 ∷ []) ∷ (3 ∷ []) ∷ []) (some 11))
      (Received true answering (1 ∷ 2 ∷ 3 ∷ []))
read-Received_example =
    read-Received true answering ((1 ∷ 2 ∷ []) ∷ (3 ∷ []) ∷ []) (some 11)
      (record { ordered = omega arith; within = omega arith; bounded = omega arith }) (omega arith)

abbrev asking : HttpConn
asking = record answering {
  iov_1 = record { base = 9; len = 9 };
  response = asked (codes "/a.html");
}

prepare-Sends_example :
    Returns
      (make_response site asking.response asking.write_buff >>= λ (response, buff, fds).
        ok (prepare (record asking { response = response; write_buff = buff })))
      (Sends site asking)
unfolding file_len make_response
prepare-Sends_example =
    prepare-Sends site asking (λ _. (page, refl, refl, omega arith)) answering-Ready.valid
      (omega arith) refl (omega arith)

abbrev nobody : Users
nobody = record { user_count = pos 0; closed = [] }

abbrev idle : HttpConn
idle = record answering { is_close = true }

abbrev day : List Event
day =
    accepted 0 (pos 5) (record { sin_addr = 1; sin_port = 2 })
    ∷ accepted 1 (pos 6) (record { sin_addr = 1; sin_port = 3 })
    ∷ closes 0
    ∷ closes 0
    ∷ []

-- The first connection is closed again, the second one open.
abbrev after : Users
after = record { user_count = pos 1; closed = pos 5 ∷ [] }

abbrev taken_over : ℤ → ℕ → Bool → HttpConn
taken_over fd port is_close = record idle {
  fd = fd;
  addr = record { sin_addr = 1; sin_port = port };
  is_close = is_close;
  read_buff = record { buffer = 0 ∷ 0 ∷ []; read_pos = 0; write_pos = 0 };
  write_buff = record { buffer = 0 ∷ 0 ∷ 0 ∷ 0 ∷ []; read_pos = 0; write_pos = 0 };
}

abbrev later : List HttpConn
later =
    record (taken_over (pos 5) 2 true) { response = asked (codes "/a.html") }
    ∷ taken_over (pos 6) 3 false
    ∷ []

counted : run nobody (idle ∷ idle ∷ []) day ≡ ok (after, later)
unfolding run step init close
counted = refl

run-open_count_example : after.user_count ≡ pos (open_count later)
run-open_count_example = run-open_count nobody after (idle ∷ idle ∷ []) later day refl counted
