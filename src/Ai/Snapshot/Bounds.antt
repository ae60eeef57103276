-- ===== src/Ai/Snapshot/Bounds.antt =====
-- The result of assemble_snapshot against the bounds of a snapshot and of its parts.
use mirageby_ai.Common.{
  ℕ, zero, suc, ◌≤◌, ◌<◌, ◌≡◌, refl, ap, ◌∙◌, true, false, some, List, [], ◌∷◌, ◌⊎◌, inl, inr,
  length, arith, Bool-cases,
}
use mirageby_ai.Common.Exec.{Result, ok, err, Result-cases}
use mirageby_ai.Ai.Snapshot.{
  Snapshot, Material, Libraries, SnapshotError, protected_too_large, max_snapshot_bytes,
  max_estimated_tokens, curate,
}
use mirageby_ai.Ai.Snapshot.Assembly.{
  Field, over_limit, noted, trim, removable, SnapshotResult, assembled, assemble_snapshot,
  is_some_field,
}
use mirageby_ai.Ai.Snapshot.Trimming.{IsTrimmed, IsTrimmed-refl, IsBare, trim_step-cases}

-- What a run of the loop from t comes to, for a draft s
Settled :
    Libraries
    → Snapshot
    → Snapshot
    → List Field
    → Result SnapshotError (Snapshot × List Field)
    → Type 0
Settled libs s t fs (ok (u, gs)) =
    IsTrimmed s u
    × (over_limit libs u ≡ false)
    × (((gs ≡ fs) × (u ≡ t)) ⊎ ((is_some_field gs ≡ true) × (removable u < removable t)))
Settled libs s t fs (err e) =
    (e ≡ protected_too_large)
    × (u : Snapshot) × IsTrimmed s u
    × IsBare u
    × (over_limit libs u ≡ true)

noted_some : (f : Field) (fs : List Field) → is_some_field (noted f fs) ≡ true
noted_some f [] = refl
noted_some f (g ∷ fs) = ground arith

later-Settled :
    (libs : Libraries) (s t u : Snapshot) (f : Field) (fs : List Field)
    (r : Result SnapshotError (Snapshot × List Field))
    → suc (removable u) ≡ removable t
    → Settled libs s u (noted f fs) r
    → Settled libs s t fs r
unfolding Settled
later-Settled libs s t u f fs (err e) less h = h
later-Settled libs s t u f fs (ok (v, gs)) less (trimmed, fits, how) = (
  trimmed,
  fits,
  inr (elim how [
    | inl (same, unchanged) ↦
        (ap is_some_field same ∙ noted_some f fs, omega (arith, ap removable unchanged))
    | inr (more, fewer) ↦ (more, omega arith)
  ]),
)

trim-Settled :
    (fuel : ℕ) (libs : Libraries) (s t : Snapshot) (fs : List Field)
    → IsTrimmed s t
    → removable t < fuel
    → (r : Result SnapshotError (Snapshot × List Field)) × (trim fuel libs t fs ≡ some r)
      × Settled libs s t fs r
unfolding trim Settled
trim-Settled zero libs s t fs h k = absurd (omega arith)
trim-Settled (suc fuel) libs s t fs h k = elim (Bool-cases (over_limit libs t)) [
  | inr fits ↦ (ok (t, fs), ground arith, (h, fits, inl (refl, refl)))
  | inl over ↦ elim (trim_step-cases t) [
    | inl (n, bare) ↦ (err protected_too_large, ground arith, (refl, t, h, bare, over))
    | inr (f, u, e, popped) ↦
        let less : suc (removable u) ≡ removable t = popped.less in
        let (r, runs, settled) =
          trim-Settled fuel libs s u (noted f fs) (popped.keeps s h) (omega arith) in
        (r, ground (arith, runs), later-Settled libs s t u f fs r less settled)
  ]
]

-- What assemble_snapshot gives, for the draft that the material was curated to
pub record IsWithin (libs : Libraries) (draft : Snapshot) (x : SnapshotResult) : Type 0 where
  pub trims : IsTrimmed draft x.snapshot
  pub size_is : x.snapshot_size_bytes ≡ length (libs.snapshot_bytes x.snapshot)
  pub hash_is : x.snapshot_hash ≡ libs.sha256 (libs.snapshot_bytes x.snapshot)
  pub size_fits : x.snapshot_size_bytes ≤ max_snapshot_bytes
  pub tokens_fit : x.estimated_tokens ≤ max_estimated_tokens
  pub says_so :
      ((x.trimmed ≡ false) × (x.snapshot ≡ draft))
      ⊎ ((x.trimmed ≡ true) × (removable x.snapshot < removable draft))

abbrev pub IsAnswer :
    Libraries → Result SnapshotError Snapshot → Result SnapshotError SnapshotResult → Type 0
IsAnswer libs (err e) r = r ≡ err e
IsAnswer libs (ok draft) (ok x) = IsWithin libs draft x
IsAnswer libs (ok draft) (err e) =
    (e ≡ protected_too_large)
    × (u : Snapshot) × IsTrimmed draft u
    × IsBare u
    × (over_limit libs u ≡ true)

assembled-IsAnswer :
    (libs : Libraries) (m : Material) (draft : Snapshot)
    (r : Result SnapshotError (Snapshot × List Field))
    → Settled libs draft draft [] r
    → IsAnswer libs (ok draft) (assembled libs m r)
unfolding Settled
assembled-IsAnswer libs m draft (err e) h = h
assembled-IsAnswer libs m draft (ok (u, fs)) (trims, fits, how) = record {
  trims = trims;
  size_is = refl;
  hash_is = refl;
  size_fits = ground arith;
  tokens_fit = ground arith;
  says_so = elim how [
    | inl (same, unchanged) ↦ inl (ap is_some_field same, unchanged)
    | inr (more, fewer) ↦ inr (more, fewer)
  ];
}

run_assembles :
    (libs : Libraries) (m : Material) (draft : Snapshot)
    (r : Result SnapshotError (Snapshot × List Field))
    → curate libs m ≡ ok draft
    → trim (suc (removable draft)) libs draft [] ≡ some r
    → assemble_snapshot libs m ≡ some (assembled libs m r)
unfolding assemble_snapshot
run_assembles libs m draft r curated runs = ground arith

-- assemble_snapshot always comes to an end. It raises what the curation raises; it returns a snapshot
-- that is within the bounds on bytes and on tokens and that the trimming leaves of the draft, and says
-- that it has trimmed exactly when it has; or it raises because the draft without all that may be
-- trimmed is still too large.
pub assemble_snapshot-IsAnswer :
    (libs : Libraries) (m : Material)
    → (r : Result SnapshotError SnapshotResult) × (assemble_snapshot libs m ≡ some r)
      × IsAnswer libs (curate libs m) r
unfolding assemble_snapshot
assemble_snapshot-IsAnswer libs m = elim (Result-cases (curate libs m)) [
  | inr (e, raised) ↦ (err e, ground (arith, raised), rw raised refl)
  | inl (draft, curated) ↦
      let (r, runs, settled) =
        trim-Settled (suc (removable draft)) libs draft draft [] (IsTrimmed-refl draft)
          (omega arith) in
      (
        assembled libs m r,
        run_assembles libs m draft r curated runs,
        rw curated (assembled-IsAnswer libs m draft r settled),
      )
]
