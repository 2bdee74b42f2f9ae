-- ===== src/Errors/Tests.antt =====
-- The theorems on the error catalog at concrete registrations.
use vestibule.Prelude.{[], ◌∷◌}
use vestibule.Errors.{permanent, ErrorCode, ErrorRegistry}

abbrev broken : ErrorCode
broken = record {
  code = "PARSER_BROKEN";
  severity = permanent;
  description = "unreadable document";
}

abbrev catalog : ErrorRegistry
catalog = ("PARSER_BROKEN", broken) ∷ []
