-- ===== src/Http/Conn/Arrivals.antt =====
-- HttpConn::read of src/httpconn.cpp: what the read buffer holds when it returns.
use idc.Prelude.{
  Bytes, ℕ, ◌+◌, ◌≤◌, ◌≡◌, refl, sym, ap, ◌∙◌, ◌⊎◌, inl, inr, Bool, true, false, List, [], ◌∷◌,
  ◌++◌, append_assoc, append-nil, Option, none, some, Result, ok, ◌>>=◌, Returns, Returns-bind,
  Returns-mono, arith, length, length-append,
}
use idc.Buffer.{max_size, read_fd, Transfer, failed, moved, contents, IsValid}
use idc.Buffer.Transfers.{Reads, read_fd-Reads}
use idc.Http.Conn.{HttpConn, ending, read}

-- The arrivals up to the first empty one, which is the end of the stream.
abbrev pub until_end : List Bytes → Bytes
until_end [] = []
until_end ([] ∷ arrivals) = []
until_end ((x ∷ xs) ∷ arrivals) = (x ∷ xs) ++ until_end arrivals

abbrev pub first : List Bytes → Bytes
first [] = []
first (str ∷ arrivals) = str

-- What read takes: all of the stream's arrivals on an edge-triggered socket, otherwise one.
abbrev pub delivered : Bool → List Bytes → Bytes
delivered true arrivals = until_end arrivals
delivered false arrivals = first arrivals

pub record Received (is_et : Bool) (c : HttpConn) (str : Bytes)
    (x : HttpConn × Transfer ℕ × List Bytes) : Type 0 where
  pub valid : IsValid x.0.read_buff
  pub holds : contents x.0.read_buff ≡ contents c.read_buff ++ str
  pub others : x.0 ≡ record c { read_buff = x.0.read_buff }
  pub stopped : is_et ≡ true → (x.1 ≡ moved 0) ⊎ ((errno : ℕ) × (x.1 ≡ failed errno))

-- One call of readv that ends the loop.
one_call :
    (is_et : Bool) (c : HttpConn) (str : Bytes) (arrivals : List Bytes)
    → IsValid c.read_buff
    → length c.read_buff.buffer + length str + 1 ≤ max_size
    → (is_et ≡ true → length str ≡ 0)
    → Returns
        (read_fd c.read_buff (moved str) >>= λ (buff, len).
          ok (record c { read_buff = buff }, len, arrivals))
        (Received is_et c str)
one_call is_et c str arrivals v h last =
    Returns-bind (read_fd c.read_buff (moved str)) _ (Reads c.read_buff str) (Received is_et c str)
      (read_fd-Reads c.read_buff str v (omega (arith, v)))
      λ x e. record {
        valid = e.0.valid;
        holds = e.0.holds;
        others = refl;
        stopped = λ et. inl (e.1 ∙ ap {B = Transfer ℕ} (λ n. moved n) (last et));
      }

-- A call with bytes, and the rest of the loop.
next_call :
    (c : HttpConn) (str rest : Bytes) (f : HttpConn → Result (HttpConn × Transfer ℕ × List Bytes))
    → IsValid c.read_buff
    → length c.read_buff.buffer + length str + 1 ≤ max_size
    → ((c' : HttpConn)
        → IsValid c'.read_buff
        → length c'.read_buff.buffer ≤ length c.read_buff.buffer + length str + 1
        → Returns (f c') (Received true c' rest))
    → Returns
        (read_fd c.read_buff (moved str) >>= λ (buff, len). f (record c { read_buff = buff }))
        (Received true c (str ++ rest))
next_call c str rest f v h next =
    Returns-bind (read_fd c.read_buff (moved str)) _ (Reads c.read_buff str)
      (Received true c (str ++ rest)) (read_fd-Reads c.read_buff str v (omega (arith, v)))
      λ x e.
        let c' = record c { read_buff = x.0 } in
        Returns-mono (f c') (Received true c' rest) (Received true c (str ++ rest))
          (next c' e.0.valid e.0.growth)
          λ y r. record {
            valid = r.valid;
            holds =
                r.holds
                ∙ ap (λ t. t ++ rest) e.0.holds
                ∙ append_assoc (contents c.read_buff) str rest;
            others = r.others;
            stopped = r.stopped;
          }

ending-Received :
    (is_et : Bool) (c : HttpConn) (last : Option ℕ)
    → IsValid c.read_buff
    → length c.read_buff.buffer + 1 ≤ max_size
    → Returns
        (read_fd c.read_buff (ending last) >>= λ (buff, len).
          ok (record c { read_buff = buff }, len, []))
        (Received is_et c [])
unfolding read_fd
ending-Received is_et c none v h = one_call is_et c [] [] v (omega arith) (λ _. refl)
ending-Received is_et c (some errno) v h = record {
  valid = v;
  holds = sym (append-nil (contents c.read_buff));
  others = refl;
  stopped = λ _. inr (errno, refl);
}

-- With a valid read buffer that has room for the arrivals, read returns: on an edge-triggered socket it
-- appends all arrivals to the read buffer, up to the first empty one, and ends with a call that failed
-- or read nothing; otherwise it appends the first arrival. Nothing else of the connection changes.
pub read-Received :
    (is_et : Bool) (c : HttpConn) (arrivals : List Bytes) (last : Option ℕ)
    → IsValid c.read_buff
    → length c.read_buff.buffer + length (delivered is_et arrivals) + length arrivals + 1 ≤ max_size
    → Returns (read is_et c arrivals last) (Received is_et c (delivered is_et arrivals))
unfolding read
read-Received true c [] last v h = ending-Received true c last v (omega arith)
read-Received false c [] last v h = ending-Received false c last v (omega arith)
read-Received true c ([] ∷ arrivals) last v h =
    one_call true c [] arrivals v (omega arith) (λ _. refl)
read-Received false c ([] ∷ arrivals) last v h =
    one_call false c [] arrivals v (omega arith) (λ e. cc)
read-Received false c ((x ∷ xs) ∷ arrivals) last v h =
    one_call false c (x ∷ xs) arrivals v (omega arith) (λ e. cc)
read-Received true c ((x ∷ xs) ∷ arrivals) last v h =
    let len = length-append (x ∷ xs) (until_end arrivals) in
    next_call c (x ∷ xs) (until_end arrivals) (λ c'. read true c' arrivals last) v
      (omega (arith, len)) λ c' w g. read-Received true c' arrivals last w (omega (arith, len))
