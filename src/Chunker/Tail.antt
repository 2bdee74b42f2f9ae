-- ===== src/Chunker/Tail.antt =====
-- What the merge of a region's last drafts comes to, under a tokenizer that has an answer.
use mathlib.Core.List.{reverse, reverse-cons, reverse-reverse, map-append}
use vestibule.Prelude.{
  ℕ, String, ◌⧺◌, ◌≡◌, refl, sym, ap, ◌∙◌, ◌⊎◌, ◌↔◌, inl, inr, Bool, true, false, ◌&&◌, not, ℤ, pos,
  negsuc, ◌≤ℤ◌, Option, none, some, arith, Bool-cases, List, [], ◌∷◌, ◌++◌, map, ok, All,
  All-reverse,
}
use vestibule.Dict.{lookup}
use vestibule.Chunker.{MetadataValue}
use vestibule.Chunker.Model.{ChunkDraft, TokenCounter, ChunkerConfig}
use vestibule.Chunker.Strategies.{join, with_types}
use vestibule.Chunker.Merge.{
  names_table, falls_short, is_table_atomic, is_merged, merge_two_drafts, merge_from,
  merge_reversed, merge_undersized_tail,
}

abbrev pub texts : List ChunkDraft → List String
texts = map (λ d. d.text)

join-snoc :
    (sep : String) (ts : List String) (t u : String)
    → join sep ((ts ++ t ∷ []) ++ u ∷ []) ≡ join sep (ts ++ (t ⧺ sep ⧺ u) ∷ [])
unfolding join
join-snoc sep [] t u = refl
join-snoc sep (x ∷ []) t u = refl
join-snoc sep (x ∷ y ∷ ts) t u = ap (λ r. x ⧺ sep ⧺ r) (join-snoc sep (y ∷ ts) t u)

texts-reverse_cons :
    (d : ChunkDraft) (ds : List ChunkDraft)
    → texts (reverse (d ∷ ds)) ≡ texts (reverse ds) ++ d.text ∷ []
texts-reverse_cons d ds = rw (reverse-cons d ds) (map-append (λ d. d.text) (reverse ds) (d ∷ []))

-- A draft of a table.
abbrev pub IsAtomic : ChunkDraft → Type 0
IsAtomic d = lookup "strategy" d.metadata ≡ some (MetadataValue.text "table_atomic")

-- `min_chunk_tokens` or more.
abbrev pub IsLong : ChunkerConfig → ChunkDraft → Type 0
IsLong config d = config.min_chunk_tokens ≤ℤ pos d.token_count

is_table_atomic_iff : (d : ChunkDraft) → (is_table_atomic d ≡ true) ↔ IsAtomic d
unfolding is_table_atomic
is_table_atomic_iff d = names (lookup "strategy" d.metadata)
  where
    names :
        (o : Option MetadataValue)
        → (names_table o ≡ true) ↔ (o ≡ some (MetadataValue.text "table_atomic"))
    names none = (λ h. cc, λ h. cc)
    names (some MetadataValue.nothing) = (λ h. cc, λ h. cc)
    names (some (MetadataValue.flag b)) = (λ h. cc, λ h. cc)
    names (some (MetadataValue.number n)) = (λ h. cc, λ h. cc)
    names (some (MetadataValue.numbers ns)) = (λ h. cc, λ h. cc)
    names (some (MetadataValue.text s)) = ground arith

falls_short_iff : (n : ℕ) (limit : ℤ) → (falls_short n limit ≡ false) ↔ (limit ≤ℤ pos n)
falls_short_iff n (pos limit) = ground arith
falls_short_iff n (negsuc limit) = (λ h. tt, λ h. refl)

none_of :
    (short last predecessor : Bool)
    → ((short && (not last && not predecessor)) ≡ false)
      ↔ ((short ≡ false) ⊎ (last ≡ true) ⊎ (predecessor ≡ true))
none_of false last predecessor = (λ h. inl refl, λ h. refl)
none_of true true predecessor = (λ h. inr (inl refl), λ h. refl)
none_of true false true = (λ h. inr (inr refl), λ h. refl)
none_of true false false = (λ h. cc, λ h. ground arith)

module _ (size : String → ℕ) where
  -- The tokenizer that answers with `size`.
  abbrev pub sized : TokenCounter
  sized content = ok (size content)

  abbrev pub Counted : ChunkDraft → Type 0
  Counted d = d.token_count ≡ size d.text

  module _ (config : ChunkerConfig) where
    abbrev pub joins : ChunkDraft → ChunkDraft → ChunkDraft
    joins predecessor last = record {
      element_types = with_types predecessor.element_types last.element_types;
      text = predecessor.text ⧺ "\n\n" ⧺ last.text;
      token_count = size (predecessor.text ⧺ "\n\n" ⧺ last.text);
      metadata = predecessor.metadata;
    }

    -- The last of the drafts, back to front, is long enough, or it or the one before it is a table's.
    abbrev pub Settled : List ChunkDraft → Type 0
    Settled [] = Unit
    Settled (d ∷ []) = Unit
    Settled (last ∷ predecessor ∷ before) =
        IsLong config last ⊎ IsAtomic last ⊎ IsAtomic predecessor

    -- Back to front, a last draft that is not settled is joined to the one before it, until the last
    -- is settled.
    pub data Merges : List ChunkDraft → List ChunkDraft → Type 0 where
      stops : {drafts : List ChunkDraft} → Settled drafts → Merges drafts drafts
      joined :
          {last predecessor : ChunkDraft} {before merged : List ChunkDraft}
          → ¬ Settled (last ∷ predecessor ∷ before)
          → Merges (joins predecessor last ∷ before) merged
          → Merges (last ∷ predecessor ∷ before) merged

    -- The texts are kept, and their lengths, and the drafts at the end are joined as far as they are to be.
    abbrev pub IsMerge : List ChunkDraft → List ChunkDraft → Type 0
    IsMerge drafts merged =
        (join "\n\n" (texts merged) ≡ join "\n\n" (texts drafts))
        × (All Counted drafts → All Counted merged)
        × Merges (reverse drafts) (reverse merged)
        × Settled (reverse merged)

    is_merged_iff :
        (predecessor last : ChunkDraft) (before : List ChunkDraft)
        → (is_merged sized config predecessor last ≡ false) ↔ Settled (last ∷ predecessor ∷ before)
    unfolding is_merged
    is_merged_iff predecessor last before = ground (
      arith,
      none_of (falls_short last.token_count config.min_chunk_tokens) (is_table_atomic last)
          (is_table_atomic predecessor),
      falls_short_iff last.token_count config.min_chunk_tokens,
      is_table_atomic_iff last,
      is_table_atomic_iff predecessor,
    )

    texts-joins :
        (last predecessor : ChunkDraft) (before : List ChunkDraft)
        → join "\n\n" (texts (reverse (joins predecessor last ∷ before)))
          ≡ join "\n\n" (texts (reverse (last ∷ predecessor ∷ before)))
    texts-joins last predecessor before =
        rw
          (
            texts-reverse_cons (joins predecessor last) before,
            texts-reverse_cons last (predecessor ∷ before),
            texts-reverse_cons predecessor before,
          )
          (sym (join-snoc "\n\n" (texts (reverse before)) predecessor.text last.text))

    merge_from-IsMerge :
        (last : ChunkDraft) (before : List ChunkDraft)
        → (merged : List ChunkDraft) × (merge_from sized config last before ≡ ok merged)
          × (join "\n\n" (texts (reverse merged)) ≡ join "\n\n" (texts (reverse (last ∷ before))))
          × (All Counted (last ∷ before) → All Counted merged)
          × Merges (last ∷ before) merged
          × Settled merged
    unfolding merge_from merge_two_drafts
    merge_from-IsMerge last [] = (last ∷ [], refl, refl, λ h. h, Merges.stops tt, tt)
    merge_from-IsMerge last (predecessor ∷ before) =
        elim (Bool-cases (is_merged sized config predecessor last)) [
          | inl merges ↦
              let (merged, runs, same, counted, joins_up, settled) =
                merge_from-IsMerge (joins predecessor last) before in
              (
                merged,
                rw merges runs,
                same ∙ texts-joins last predecessor before,
                λ h. counted (refl, h.1.1),
                Merges.joined
                    (λ stays. cc (merges, (is_merged_iff predecessor last before).1 stays))
                    joins_up,
                settled,
              )
          | inr stays ↦
              let settled = (is_merged_iff predecessor last before).0 stays in
              (
                last ∷ predecessor ∷ before,
                rw stays refl,
                refl,
                λ h. h,
                Merges.stops settled,
                settled,
              )
        ]

    merge_reversed-IsMerge :
        (drafts : List ChunkDraft)
        → (merged : List ChunkDraft) × (merge_reversed sized config drafts ≡ ok merged)
          × (join "\n\n" (texts (reverse merged)) ≡ join "\n\n" (texts (reverse drafts)))
          × (All Counted drafts → All Counted merged)
          × Merges drafts merged
          × Settled merged
    merge_reversed-IsMerge [] = ([], refl, refl, λ h. h, Merges.stops tt, tt)
    merge_reversed-IsMerge (last ∷ before) = merge_from-IsMerge last before

    -- With a tokenizer that answers, the merge of the last drafts of a region ends. Its result is reached
    -- by joining the last draft to the one before it, with a blank line between the texts, exactly as
    -- long as there are two, the last has less than `min_chunk_tokens`, and neither is a table's. So the
    -- texts joined by blank lines stay the same, drafts that record the token counts of their texts still
    -- do, and the last draft at the end has `min_chunk_tokens`, or is alone, or it or the one before it
    -- is a table's.
    pub merge_undersized_tail-IsMerge :
        (drafts : List ChunkDraft)
        → (merged : List ChunkDraft) × (merge_undersized_tail sized config drafts ≡ ok merged)
          × IsMerge drafts merged
    unfolding merge_undersized_tail
    merge_undersized_tail-IsMerge drafts =
        let (merged, runs, same, counted, joins_up, settled) =
          merge_reversed-IsMerge (reverse drafts) in
        (
          reverse merged,
          rw runs refl,
          (
            same ∙ ap (λ ds. join "\n\n" (texts ds)) (reverse-reverse drafts),
            λ h. All-reverse Counted merged (counted (All-reverse Counted drafts h)),
            rw (reverse-reverse merged) joins_up,
            rw (reverse-reverse merged) settled,
          ),
        )
