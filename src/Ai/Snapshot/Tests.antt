-- ===== src/Ai/Snapshot/Tests.antt =====
-- The snapshot of a small case whose untrusted content is too large.
use mirageby_ai.Common.{
  ℕ, zero, suc, ◌+◌, ◌*◌, ◌≡◌, refl, String, Option, none, some, List, [], ◌∷◌, length, arith,
}
use mirageby_ai.Common.Exec.{Result, ok}
use mirageby_ai.Contracts.Json.{Json}
use mirageby_ai.Contracts.Text.{codes}
use mirageby_ai.Ai.Utf8.{
  Text, encode, encode_char, decode, truncate_utf8, IsLongestPrefix, truncate_utf8-IsLongestPrefix,
}
use mirageby_ai.Ai.Snapshot.{
  thousandths, Material, Libraries, SnapshotError, bounded_rounds, bounded_json_object, insert_once,
  sorted_set, curate,
}
use mirageby_ai.Ai.Snapshot.Assembly.{
  Field, untrusted_intruder_content, trim_step, trim, pop_inactive, SnapshotResult,
  assemble_snapshot,
}
use mirageby_ai.Ai.Snapshot.Bounds.{IsAnswer, assemble_snapshot-IsAnswer}

-- "aé" cut to two bytes
truncate_run : truncate_utf8 (97 ∷ 233 ∷ []) 2 ≡ 97 ∷ []
unfolding truncate_utf8 encode encode_char decode
truncate_run = refl

truncate_utf8-IsLongestPrefix_example :
    IsLongestPrefix 4 (97 ∷ 8364 ∷ 233 ∷ []) (truncate_utf8 (97 ∷ 8364 ∷ 233 ∷ []) 4)
truncate_utf8-IsLongestPrefix_example =
    truncate_utf8-IsLongestPrefix (97 ∷ 8364 ∷ 233 ∷ []) 4
      (omega arith, (omega arith, (omega arith, tt)))

zeros : ℕ → List ℕ
zeros zero = []
zeros (suc n) = 0 ∷ zeros n

abbrev libraries : Libraries
libraries = record {
  reread = λ o. o;
  object_bytes = λ o. zeros (2 + 10 * length o);
  snapshot_bytes = λ s. zeros (9000 * length s.untrusted_intruder_content + 100);
  sha256 = λ b. "hash";
  ulid = "id";
}

abbrev material : Material
material = record {
  case_state = "ENGAGING";
  objective = codes "observe";
  recent_events = record { event_id = "e"; event_time = "t"; summary = codes "login" } ∷ [];
  behaviour_summary = [];
  skill_profile = record {
    band = none;
    confidence = some (thousandths 1500);
    supporting_event_ids = "e" ∷ [];
    contradictory_event_ids = "d" ∷ [];
    uncertainties = [];
  };
  sandbox_state = ("status", Json.text "ready") ∷ [];
  available_artifacts = [];
  allowed_actions = "MOVE_ARTIFACT" ∷ "DISPLAY_MESSAGE" ∷ "MOVE_ARTIFACT" ∷ [];
  analyst_directives = [];
  previous_actions = [];
  untrusted_intruder_content = codes "first" ∷ codes "second" ∷ [];
  source_profile_version = 1;
}

-- What is read of a result
abbrev shown : Option (Result SnapshotError SnapshotResult) → List Field × List String × List Text
shown (some (ok x)) = (x.trimmed_fields, x.source_event_ids, x.snapshot.untrusted_intruder_content)
shown _ = ([], [], [])

assemble_run :
    shown (assemble_snapshot libraries material)
    ≡ (untrusted_intruder_content ∷ [], "d" ∷ "e" ∷ [], codes "second" ∷ [])
unfolding assemble_snapshot curate bounded_json_object bounded_rounds insert_once sorted_set trim
    trim_step pop_inactive truncate_utf8 encode encode_char decode zeros
assemble_run = refl

assemble_snapshot-IsAnswer_example :
    (r : Result SnapshotError SnapshotResult) × (assemble_snapshot libraries material ≡ some r)
    × IsAnswer libraries (curate libraries material) r
assemble_snapshot-IsAnswer_example = assemble_snapshot-IsAnswer libraries material
