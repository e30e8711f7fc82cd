-- ===== src/Tests/NetRuns.antt =====
-- Runs of the socket functions of src/_public.cpp on small inputs.
use idc.Prelude.{
  ℕ, ◌≡◌, refl, Bool, true, false, List, [], ◌∷◌, ◌++◌, some, ok, Returns, inr, pos, arith,
  replicate,
}
use idc.Text.{codes}
use idc.Net.Frame.{tcp_read, tcp_write}
use idc.Net.Frame.RoundTrip.{Read, tcp_read-tcp_write}
use idc.Net.Client.{TcpClient, Ledger, make_client, connect_to_server}
use idc.Net.Client.Descriptors.{
  IsBalanced, constructed, then_step, connected, ClientReached-IsBalanced,
}

abbrev ones : List ℕ
ones = 1 ∷ 5 ∷ 1 ∷ 1 ∷ 2 ∷ 1 ∷ 1 ∷ []

tcp_read-tcp_write_example :
    Returns
      (tcp_write (pos 5) (codes "abc") (pos 3) (record { bytes = []; chunks = ones }))
      (λ (written, s).
        (written ≡ true)
        × Returns
            (tcp_read
              (pos 6)
              true
              (pos 0)
              (replicate 4 0)
              0
              (record { bytes = s.bytes ++ codes "xy"; chunks = ones }))
            (Read (codes "abc") (codes "xy") (replicate 4 0)))
tcp_read-tcp_write_example =
    tcp_read-tcp_write (pos 5) (pos 6) (pos 0) (codes "abc") (codes "xy") (replicate 4 0) 0 ones
      ones refl refl (omega arith) (omega arith) (omega arith)
      (
        omega arith,
        (
          omega arith,
          (
            omega arith,
            (omega arith, (omega arith, (omega arith, (omega arith, (omega arith, tt))))),
          ),
        ),
      )
      (
        omega arith,
        (
          omega arith,
          (
            omega arith,
            (omega arith, (omega arith, (omega arith, (omega arith, (omega arith, tt))))),
          ),
        ),
      )

-- A client that connected, and what it closed.
abbrev no_descriptors : Ledger
no_descriptors = record { opened = []; closed = [] }

abbrev connected_client : Bool × TcpClient × Ledger
connected_client = (
  true,
  record {
    connfd = pos 7;
    ip = codes "10.0.0.1" ++ replicate 13 0;
    port = pos 5005;
    btimeout = false;
    buflen = 0;
  },
  record { opened = pos 7 ∷ []; closed = [] },
)

connects :
    connect_to_server
      (make_client 0)
      no_descriptors
      (some (codes "10.0.0.1"))
      (pos 5005)
      (pos 7)
      true
      true
    ≡ ok connected_client
unfolding connect_to_server make_client
connects = refl

ClientReached-IsBalanced_example : IsBalanced connected_client.1 connected_client.2
ClientReached-IsBalanced_example = ClientReached-IsBalanced connected_client.1 connected_client.2 (
    then_step (make_client 0) connected_client.1 no_descriptors connected_client.2 (constructed 0) (
      connected (make_client 0) no_descriptors (some (codes "10.0.0.1")) (pos 5005) (pos 7) true
        true connected_client (inr refl) connects))
