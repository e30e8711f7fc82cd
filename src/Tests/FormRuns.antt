-- ===== src/Tests/FormRuns.antt =====
-- Forms that src/httprequest.cpp reads.
use idc.Prelude.{
  get_or, ◌==◌, false, zero, suc, ◌≤◌, ◌<◌, refl, [], ◌∷◌, arith, ok, fault, out_of_range, length,
  ◌≡◌, ℕ,
}
use idc.Text.{codes}
use idc.Http.Request.Form.{parse_from_urlencoded, decode_percent}
use idc.Http.Request.Scan.{Guarded, parse_from_urlencoded-Guarded}
use idc.Http.Request.FormText.{parse-form_text}
use idc.Http.Request.Percent.{decode_percent-digits, parse-truncated}

parse_from_urlencoded-Guarded_example :
    Guarded (λ r. length r.0 ≡ length (codes "a=%4")) (parse_from_urlencoded (codes "a=%4") [])
parse_from_urlencoded-Guarded_example = parse_from_urlencoded-Guarded (codes "a=%4") []

parse-form_text_example :
    parse_from_urlencoded (codes "a=1&b=2&a=3&c=4") []
    ≡ ok (
      codes "a=1&b=2&a=3&c=4",
      (codes "a", codes "3") ∷ (codes "b", codes "2") ∷ (codes "c", codes "4") ∷ [],
    )
unfolding parse_from_urlencoded
parse-form_text_example =
    parse-form_text ((codes "a", codes "1") ∷ (codes "b", codes "2") ∷ (codes "a", codes "3") ∷ [])
      (codes "c") (codes "4") [] (refl, refl, (refl, refl, (refl, refl, tt))) refl refl

decode_percent-digits_example :
    decode_percent (codes "v=%20") 2 ≡ ok (b'v' ∷ b'=' ∷ b'%' ∷ 132 ∷ b'8' ∷ [])
unfolding decode_percent
decode_percent-digits_example =
    decode_percent-digits (codes "v=%20") 2 2 0 (omega arith) (omega arith) (omega arith) refl refl

parse-truncated_example : parse_from_urlencoded (codes "ab%4") [] ≡ fault out_of_range
parse-truncated_example =
    parse-truncated (codes "ab%4") [] 2 no_percent refl (omega arith) (omega arith)
  where
    no_percent : (k : ℕ) → 0 ≤ k → k < 2 → (get_or (codes "ab%4") k 0 == b'%') ≡ false
    no_percent zero h l = refl
    no_percent (suc zero) h l = refl
    no_percent (suc (suc k)) h l = absurd (omega arith)
