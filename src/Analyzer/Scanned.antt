-- ===== src/Analyzer/Scanned.antt =====
-- The regions that the chunker makes of what `DocumentIntelligenceParser` extracts.
use vestibule.Prelude.{List, [], ◌∷◌, Option, none, String}
use vestibule.Chunker.Regions.{Region, table_region}
use vestibule.Analyzer.Docint.{DocumentTable, table_element}

-- Each table alone, the first with this caption and the others with none.
abbrev pub table_regions : Option String → List DocumentTable → List Region
table_regions caption [] = []
table_regions caption (t ∷ ts) =
    record { kind = table_region; elements = table_element t ∷ []; caption_text = caption }
    ∷ table_regions none ts
