-- ===== src/Artifacts/Archive/Upload.antt =====
-- stage_upload of libs/mirage_common/artifacts.py against the sum of the chunks.
use mirageby_ai.Common.{
  ℕ, ◌+◌, ◌≤◌, ◌≡◌, ltb, none, some, List, [], ◌∷◌, inl, inr, arith, Bool-cases, if◌then◌else◌,
}
use mirageby_ai.Common.Exec.{ok, err}
use mirageby_ai.Artifacts.Archive.{mebibytes, read_chunks, stage_upload, too_large}

abbrev sum : List ℕ → ℕ
sum [] = 0
sum (n ∷ ns) = n + sum ns

read_chunks_lem :
    (limit size : ℕ) (chunks : List ℕ)
    → size ≤ limit
    → read_chunks limit size chunks
      ≡ (if ltb limit (size + sum chunks) then none else some (size + sum chunks))
unfolding read_chunks
read_chunks_lem limit size [] h =
    let same : size + sum [] ≡ size = omega arith in rw same (ground arith)
read_chunks_lem limit size (n ∷ ns) h =
    let same : size + sum (n ∷ ns) ≡ size + n + sum ns = omega arith in
    elim (Bool-cases (ltb limit (size + n))) [
      | inl over ↦ ground arith
      | inr fits ↦ let later = read_chunks_lem limit (size + n) ns (ground arith) in ground arith
    ]

-- An upload is staged exactly when the chunks together are at most max_upload_mb MiB, and then with
-- their sum as its size.
pub stage_upload_lem :
    (max_upload_mb : ℕ) (chunks : List ℕ)
    → stage_upload max_upload_mb chunks
      ≡ (if ltb (mebibytes max_upload_mb) (sum chunks) then err too_large else ok (sum chunks))
unfolding stage_upload
stage_upload_lem m chunks =
    let same : 0 + sum chunks ≡ sum chunks = omega arith in
    let read = read_chunks_lem (mebibytes m) 0 chunks (omega arith) in ground arith
