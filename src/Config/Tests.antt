-- ===== src/Config/Tests.antt =====
-- Witnesses of the theorems on key paths.
use apprentice_harness.Common.{◌≡◌, refl, is_whitespace, List, [], ◌∷◌, Text, codes}
use apprentice_harness.Common.Result.{ok}
use apprentice_harness.Config.Keypath.{walk, walk_quoted, parse, format}
use apprentice_harness.Config.Keypath.RoundTrip.{parse-format, parse-format-parse}

abbrev model_price : List Text
model_price = codes "price" ∷ codes "a.b" ∷ []

parse-format_example : parse (format model_price) ≡ ok model_price
parse-format_example =
    parse-format (codes "price") (codes "a.b" ∷ [])
      ((refl, (refl, (refl, (refl, (refl, tt))))), ((refl, (refl, (refl, tt))), tt))

quoted_key : parse (codes "price.\"a.b\"") ≡ ok model_price
unfolding parse walk walk_quoted is_whitespace
quoted_key = refl

parse-format-parse_example : parse (format model_price) ≡ ok model_price
parse-format-parse_example = parse-format-parse (codes "price.\"a.b\"") model_price quoted_key
