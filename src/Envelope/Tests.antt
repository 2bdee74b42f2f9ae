-- ===== src/Envelope/Tests.antt =====
-- The theorems on the envelope at concrete inputs, with a constant for the hash.
use vestibule.Prelude.{String, none}
use vestibule.Samples.{doc_a}
use vestibule.Vertical.Model.{internal}
use vestibule.Envelope.{Arrival, build_envelope}
use vestibule.Envelope.Laws.{IsBuilt, build_envelope-IsBuilt}

abbrev hash : String → String
hash s = doc_a

abbrev arrival : Arrival
arrival = record {
  source = "share";
  blob_path = "a.pdf";
  content_hash = doc_a;
  trust_tier = internal;
  allowed_groups = none;
  vertical = none;
  scenario_id = none;
  received_at = none;
}

build_envelope-IsBuilt_example : IsBuilt hash arrival 9 (build_envelope hash arrival 9)
build_envelope-IsBuilt_example = build_envelope-IsBuilt hash arrival 9
