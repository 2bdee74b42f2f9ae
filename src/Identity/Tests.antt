-- ===== src/Identity/Tests.antt =====
-- The theorems on ids at concrete texts.
use vestibule.Prelude.{String, ◌≡◌, ◌↔◌, ok, ◌⧺◌}
use vestibule.Identity.{codes, id_hex_length, validate_id_format}
use vestibule.Identity.Format.{HexText, validate_id_format_iff}
use vestibule.Samples.{doc_a}

-- A text for a hash.
abbrev hashed : String → String
hashed text = "#" ⧺ text

validate_id_format_iff_example :
    (validate_id_format doc_a "doc_id" ≡ ok doc_a) ↔ HexText id_hex_length (codes doc_a)
validate_id_format_iff_example = validate_id_format_iff doc_a "doc_id"
