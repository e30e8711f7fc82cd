-- ===== src/Http/Request/Total.antt =====
-- The faults and the end of HttpRequest::parse in src/httprequest.cpp.
use idc.Prelude.{
  Bytes, ℕ, zero, suc, ◌+◌, ◌≤◌, ◌<◌, ◌≡◌, refl, ap, subst, ◌∙◌, inl, inr, Bool, true, false, not,
  ◌||◌, ok, ◌>>=◌, arith, if◌then◌else◌, ◌==◌, Bool-cases, length, length-drop, drop-drop, take,
  drop,
}
use idc.Text.{codes, find_crlf, subscript, equal}
use idc.Text.Search.{find_crlf_bound}
use idc.Buffer.{Buffer, readable_bytes, retrieve_until, contents, IsValid}
use idc.Buffer.Queue.Refinement.{advanced}
use idc.Http.Request.{
  HttpRequest, ParseState, request_line, headers, body, finish, Next, refused, last_line, line_end,
  parse_form, parse_post, parse_body, parse_line, parse_round, parse_loop, parse, is_finish,
}
use idc.Http.Request.Form.{parse_from_urlencoded}
use idc.Http.Request.Scan.{Guarded, Guarded-bind, Guarded-mono, parse_from_urlencoded-Guarded}
use idc.Http.Request.Rounds.{taken_until, advanced-Holds}

abbrev Any {ℓ} : {A : Type ℓ} → A → Type 0
Any a = Unit {0}

parse_post-Guarded : (r : HttpRequest) → Guarded Any (parse_post r)
unfolding parse_post parse_form
parse_post-Guarded r =
    let (kind, header) = subscript (codes "Content-Type") r.header in
    elim (Bool-cases (equal r.method (codes "POST"))) [
      | inr other ↦ rw other tt
      | inl post ↦
          rw post (elim (Bool-cases (equal kind (codes "application/x-www-form-urlencoded"))) [
            | inl form ↦ rw form (
                Guarded-bind (λ x. length x.0 ≡ length r.body) Any
                  (parse_from_urlencoded r.body r.post) _
                  (parse_from_urlencoded-Guarded r.body r.post) λ x h. tt)
            | inr plain ↦ rw plain tt
          ])
    ]

parse_line-Guarded :
    (s : ParseState) (r : HttpRequest) (line : Bytes) (readable : ℕ)
    → Guarded Any (parse_line s r line readable)
unfolding parse_line parse_body
parse_line-Guarded request_line r line readable = tt
parse_line-Guarded headers r line readable = tt
parse_line-Guarded body r line readable =
    Guarded-bind Any Any (parse_body r line) _
      (Guarded-bind Any Any (parse_post (record r { body = line })) _
        (parse_post-Guarded (record r { body = line })) λ x h. tt)
      λ x h. tt
parse_line-Guarded finish r line readable = tt

-- The place of a line end is in the text, with its two bytes.
abbrev Placed : Bytes → HttpRequest × Next → Type 0
Placed text (r, refused) = Unit {0}
Placed text (r, last_line) = Unit {0}
Placed text (r, line_end e) = e + 2 ≤ length text

parse_round-Guarded :
    (r : HttpRequest) (text : Bytes) (readable : ℕ)
    → Guarded (Placed text) (parse_round r text readable)
unfolding parse_round
parse_round-Guarded r text readable =
    Guarded-bind Any (Placed text) (parse_line r.state r (take (find_crlf text) text) readable) _
      (parse_line-Guarded r.state r (take (find_crlf text) text) readable)
      λ (x, accepted) _. placed x accepted
  where
    placed :
        (x : HttpRequest) (accepted : Bool)
        → Placed text (
          x,
          if not accepted
              then refused
              else if find_crlf text == length text
              then last_line
              else line_end (find_crlf text),
        )
    placed x false = tt
    placed x true = elim (find_crlf_bound text) [
      | inl e ↦ let t : (find_crlf text == length text) ≡ true = ground arith in rw t tt
      | inr e ↦ let t : (find_crlf text == length text) ≡ false = ground arith in rw t e
    ]

-- What is left is a valid buffer that holds an end of `text`.
pub record Left (text : Bytes) (x : HttpRequest × Buffer × Bool) : Type 0 where
  pub valid : IsValid x.1
  pub dropped : ℕ
  pub holds : contents x.1 ≡ drop dropped text

later-Left :
    (k : ℕ) (text : Bytes) (x : HttpRequest × Buffer × Bool) → Left (drop k text) x → Left text x
later-Left k text x l = record {
  valid = l.valid;
  dropped = k + l.dropped;
  holds = l.holds ∙ drop-drop k l.dropped text;
}

-- What follows a round, if the loop is right with less fuel.
after_round :
    (fuel : ℕ) (buff : Buffer) (text : Bytes) (x : HttpRequest) (next : Next)
    → ((b : Buffer) (t : Bytes)
        → IsValid b
        → contents b ≡ t
        → length t < fuel
        → Guarded (Left t) (parse_loop fuel x b))
    → Placed (contents buff) (x, next)
    → IsValid buff
    → contents buff ≡ text
    → length text < suc fuel
    → Guarded (Left text) (elim next [
      | refused ↦ ok (x, buff, false)
      | last_line ↦ ok (x, buff, true)
      | line_end end ↦
          retrieve_until buff (buff.read_pos + (end + 2)) >>= λ rest. parse_loop fuel x rest
    ])
after_round fuel buff text x refused ih p v e f = record { valid = v; dropped = 0; holds = e }
after_round fuel buff text x last_line ih p v e f = record { valid = v; dropped = 0; holds = e }
after_round fuel buff text x (line_end end) ih p v e f =
    let h = advanced-Holds buff (end + 2) v p in
    let t =
      ih (advanced buff (end + 2)) (drop (end + 2) (contents buff)) h.valid h.holds
        (omega (arith, ap length e, length-drop (end + 2) (contents buff))) in
    rw (taken_until buff (end + 2) v p) (
      Guarded-mono (Left (drop (end + 2) (contents buff))) (Left text) _ t
        λ y l. later-Left (end + 2) text y (subst (λ u. Left (drop (end + 2) u) y) e l))

parse_loop-Guarded :
    (fuel : ℕ) (r : HttpRequest) (buff : Buffer) (text : Bytes)
    → IsValid buff
    → contents buff ≡ text
    → length text < fuel
    → Guarded (Left text) (parse_loop fuel r buff)
unfolding parse_loop
parse_loop-Guarded zero r buff text v e f = absurd (omega arith)
parse_loop-Guarded (suc fuel) r buff text v e f =
    elim (Bool-cases (readable_bytes buff == 0 || is_finish r.state)) [
      | inl ended ↦ rw (ended, parse_loop) (record { valid = v; dropped = 0; holds = e })
      | inr more ↦
          rw (more, parse_loop)
            (Guarded-bind (Placed (contents buff)) (Left text)
              (parse_round r (contents buff) (readable_bytes buff)) _
              (parse_round-Guarded r (contents buff) (readable_bytes buff))
              λ a p.
                after_round fuel buff text a.0 a.1
                  (λ b t w h k. parse_loop-Guarded fuel a.0 b t w h k) p v e f)
    ]

-- On a valid buffer, from any state of the request, the parser ends; it fails no assertion and
-- leaves a valid buffer that holds an end of what it held, unless a form makes it access memory
-- behind the body.
pub parse-Guarded :
    (r : HttpRequest) (buff : Buffer) → IsValid buff → Guarded (Left (contents buff)) (parse r buff)
unfolding parse
parse-Guarded r buff v = elim (Bool-cases (readable_bytes buff == 0)) [
  | inl nothing ↦ rw nothing (record { valid = v; dropped = 0; holds = refl })
  | inr some_left ↦ rw some_left (
      parse_loop-Guarded (suc (length (contents buff))) r buff (contents buff) v refl (omega arith))
]
