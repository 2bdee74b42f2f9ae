-- ===== src/Chunker/Sections.antt =====
-- `_split_into_sections` against the labelling of a region's elements by their headings.
use mathlib.Core.List.{append_assoc, map-append}
use vestibule.Prelude.{
  String, ◌≡◌, refl, List, [], ◌∷◌, ◌++◌, map, Option, none, some, ite, if_pos, if_neg,
}
use vestibule.Chunker.{heading}
use vestibule.Chunker.Model.{Element, element_type_discrete}
use vestibule.Chunker.Strategies.{Section, closed, sections_from, split_into_sections}

abbrev pub Labelled : Type 0
Labelled = List (Option String × Element)

-- Each element that is no heading, with the text of the last heading before it.
unfoldable pub labelled : Option String → List Element → Labelled
labelled path [] = []
labelled path (e ∷ es) =
    ite (element_type_discrete e.type heading) (labelled (some e.text) es)
      ((path, e) ∷ labelled path es)

-- The elements of the sections, each with the section's path.
abbrev pub unfolded : List Section → Labelled
unfolded [] = []
unfolded (section ∷ sections) = map (λ e. (section.0, e)) section.1 ++ unfolded sections

closed-unfolded :
    (path : Option String) (content : List Element) (sections : List Section)
    → unfolded (closed path content sections) ≡ map (λ e. (path, e)) content ++ unfolded sections
closed-unfolded path [] sections = refl
closed-unfolded path (e ∷ es) sections = refl

sections_from-labelled :
    (path : Option String) (content rest : List Element)
    → unfolded (sections_from path content rest)
      ≡ map (λ e. (path, e)) content ++ labelled path rest
unfolding sections_from labelled
sections_from-labelled path content [] = closed-unfolded path content []
sections_from-labelled path content (e ∷ es) = elim (element_type_discrete e.type heading) [
  | yes is ↦
      rw
        (
          if_pos _ is,
          if_pos _ is,
          closed-unfolded path content (sections_from (some e.text) [] es),
          sections_from-labelled (some e.text) [] es,
        )
        refl
  | no other ↦
      rw
        (
          if_neg _ other,
          if_neg _ other,
          sections_from-labelled path (content ++ e ∷ []) es,
          map-append {B = Option String × Element} (λ x. (path, x)) content (e ∷ []),
        )
        (append_assoc (map (λ x. (path, x)) content) ((path, e) ∷ []) (labelled path es))
]

-- The sections of a region hold its elements but for the headings, in their order, and each under the
-- text of the last heading before it, or under none.
split_into_sections-labelled :
    (elements : List Element) → unfolded (split_into_sections elements) ≡ labelled none elements
unfolding split_into_sections
split_into_sections-labelled elements = sections_from-labelled none [] elements
