-- ===== src/Json/Examples.antt =====
-- Runs of the JSON writer and reader (src/json.rs), after the tests there.
use jrs.Prelude.{◌≢◌, starts_with, digits_value, arith, codes, ◌∷◌, [], ◌≡◌, refl, true, decimal}
use jrs.Json.{
  Json, null, bool, int, str, array, object, no_items, item, no_pairs, pair, negsuc, render,
}
use jrs.Json.Parser.{read_document, parse, document, is_no_json}
use jrs.Json.Reader.{out_of_fuel}
use jrs.Json.Parser.Total.{read_document_returns}
use jrs.Json.Parser.RoundTrip.{parse-render, IsWritable}

abbrev project : Json
project = object (
    pair (codes "name") (str (codes "a \"b\"\n")) (
      pair (codes "n") (int (negsuc 11)) (
        pair (codes "list") (array (item null (item (bool true) no_items)))
          (pair (codes "empty") (object no_pairs) no_pairs))))

prints : render (object (pair (codes "a\"b") null no_pairs)) ≡ codes "{\n  \"a\\\"b\": null\n}\n"
unfolding render
prints = refl

reads_escapes :
    parse (codes " {\"a\": \"\\u0041\\ud83d\\ude00\\/\", \"f\": 1.5e3, \"e\": []} ")
    ≡ document (
        object (
          pair
            (codes "a")
            (str (65 ∷ 0x1F600 ∷ 47 ∷ []))
            (pair (codes "f") (str (codes "1.5e3")) (pair (codes "e") (array no_items) no_pairs))))
unfolding parse starts_with digits_value
reads_escapes = refl

refuses_comma : parse (codes "[1,]") ≡ is_no_json (codes "unexpected character at byte 3")
unfolding parse decimal
refuses_comma = refl

refuses_surrogate : parse (codes "\"\\ud800\"") ≡ is_no_json (codes "a lone surrogate at byte 7")
unfolding parse starts_with decimal
refuses_surrogate = refl

-- RFC 8259 has no such number and no such escape.
reads_more_numbers : parse (codes "1-2") ≡ document (str (codes "1-2"))
unfolding parse digits_value
reads_more_numbers = refl

reads_signed_escape : parse (codes "\"\\u+041\"") ≡ document (str (codes "A"))
unfolding parse
reads_signed_escape = refl

project-IsWritable : IsWritable project 0
unfolding IsWritable
project-IsWritable = (
  omega arith,
  (
    refl,
    (
      refl,
      (
        refl,
        (omega arith, (refl, ((omega arith, (tt, (tt, tt))), (refl, ((omega arith, tt), tt))))),
      ),
    ),
  ),
)

parse-render_example : parse (render project) ≡ document project
parse-render_example = parse-render project project-IsWritable

read_document_returns_example : read_document (codes "[1, {\"a\"") ≢ out_of_fuel
read_document_returns_example = read_document_returns (codes "[1, {\"a\"")
