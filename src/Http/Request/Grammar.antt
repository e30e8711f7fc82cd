-- ===== src/Http/Request/Grammar.antt =====
-- The two regular expressions of src/httprequest.cpp, and the grammars of the lines behind them.
use idc.Prelude.{
  Bytes, ◌≡◌, ◌↔◌, inl, inr, false, ◌∷◌, ◌++◌, Option, none, some, Option-cases, arith,
  if◌then◌else◌,
}
use idc.Text.{codes, has, split_at, strip_prefix}
use idc.Text.Search.{split_at-append, split_at_sound, strip_prefix_sound}
use idc.Http.Request.{match_request_line, match_header, skip_space}

-- `line` is the method, the path and the version in their places, none of which has a space.
pub record IsRequestLine (line method path version : Bytes) : Type 0 where
  pub reads : line ≡ method ++ (b' ' ∷ (path ++ (b' ' ∷ (codes "HTTP/" ++ version))))
  pub method_word : has b' ' method ≡ false
  pub path_word : has b' ' path ≡ false
  pub version_word : has b' ' version ≡ false

match_request_line_complete :
    (line method path version : Bytes)
    → IsRequestLine line method path version
    → match_request_line line ≡ some (method, path, version)
unfolding match_request_line
match_request_line_complete line method path version h =
    rw (h.reads, match_request_line)
      (rw
        (
          split_at-append b' ' method (path ++ (b' ' ∷ (codes "HTTP/" ++ version))) h.method_word,
          match_request_line,
        )
        (rw (split_at-append b' ' path (codes "HTTP/" ++ version) h.path_word, match_request_line)
          (rw h.version_word)))

parts :
    (m p v : Bytes) {line rest proto method path version : Bytes}
    → (line ≡ m ++ (b' ' ∷ rest)) × (has b' ' m ≡ false)
    → (rest ≡ p ++ (b' ' ∷ proto)) × (has b' ' p ≡ false)
    → proto ≡ codes "HTTP/" ++ v
    → if◌then◌else◌ {A = Option (Bytes × Bytes × Bytes)} (has b' ' v) none (some (m, p, v))
      ≡ some (method, path, version)
    → IsRequestLine line method path version
parts m p v a b c e = record {
  reads = ground arith;
  method_word = ground arith;
  path_word = ground arith;
  version_word = ground arith;
}

match_request_line_sound :
    (line method path version : Bytes)
    → match_request_line line ≡ some (method, path, version)
    → IsRequestLine line method path version
unfolding match_request_line
match_request_line_sound line method path version e = elim (Option-cases (split_at b' ' line)) [
  | inl off ↦ cc (rw (off, match_request_line) at e)
  | inr ((m, rest), on) ↦
      let e1 = rw (on, match_request_line) at e in
      elim (Option-cases (split_at b' ' rest)) [
        | inl off ↦ cc (rw (off, match_request_line) at e1)
        | inr ((p, proto), on') ↦
            let e2 = rw (on', match_request_line) at e1 in
            elim (Option-cases (strip_prefix (codes "HTTP/") proto)) [
              | inl off ↦ cc (rw (off, match_request_line) at e2)
              | inr (v, on'') ↦
                  let e3 = rw (on'', match_request_line) at e2 in
                  parts m p v (split_at_sound b' ' line on) (split_at_sound b' ' rest on')
                    (strip_prefix_sound (codes "HTTP/") proto on'') e3
            ]
      ]
]

-- The pattern of the request line accepts a line, with these captures, exactly when the line
-- consists of them, single spaces and "HTTP/", and none of them has a space.
pub match_request_line_iff :
    (line method path version : Bytes)
    → (match_request_line line ≡ some (method, path, version))
      ↔ IsRequestLine line method path version
match_request_line_iff line method path version = (
  match_request_line_sound line method path version,
  match_request_line_complete line method path version,
)

-- A header as a client writes it.
pub record IsHeader (key value : Bytes) : Type 0 where
  pub no_colon : has b':' key ≡ false
  pub one_line : has b'\n' value ≡ false
  pub no_return : has b'\r' value ≡ false

pub match_header_complete :
    (key value : Bytes)
    → IsHeader key value
    → match_header (key ++ (b':' ∷ b' ' ∷ value)) ≡ some (key, value)
unfolding match_header skip_space
match_header_complete key value h =
    rw (split_at-append b':' key (b' ' ∷ value) h.no_colon, match_header)
      (rw (h.one_line, h.no_return))
