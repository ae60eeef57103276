-- ===== src/Artifacts/Archive/Bounds.antt =====
-- The limits of inspect_archive against the independent account of Counts.
use mirageby_ai.Common.{
  ℕ, suc, ◌+◌, ◌*◌, ◌≤◌, ◌≡◌, ◌≢◌, refl, ap, max, ltb, Bool, true, false, List, [], ◌∷◌, inl, inr,
  arith, Bool-cases, if◌then◌else◌,
}
use mathlib.Core.Path.{subst}
use mirageby_ai.Common.Exec.{ok, err}
use mirageby_ai.EnvController.Paths.{FilePath}
use mirageby_ai.Artifacts.Archive.{
  ArtifactScannerConfig, mebibytes, policy, File, plain, locked, zipped, tarred, ZipMembers,
  zip_end, zip_member, TarMembers, tar_end, tar_member, Totals, Inspected, exceeds_ratio, admit,
  deeper, within_expanded, inspect, inspect_zip, inspect_tar, inspect_archive, no_totals,
}
use mirageby_ai.Artifacts.Archive.Counts.{
  members_of, zip_members_of, tar_members_of, size_of, zip_size_of, tar_size_of, packed_of,
  zip_packed_of, tar_packed_of, height_of, zip_height_of, tar_height_of, name_of, IsClean,
  IsCleanZip, IsCleanTar,
}
use mirageby_ai.Artifacts.Archive.Steps.{
  Passed, then-inv, ok_result_inj, admit_lem, zip_step, tar_step, within_expanded_lem,
}

-- A level that is entered: the totals of its members, its depth noted
abbrev Level : ArtifactScannerConfig → ℕ → Inspected → Totals → Type 0
Level c depth x u =
    (suc depth ≤ suc c.max_archive_depth)
    × (x ≡ ok u)
    × (u.expanded_bytes ≤ mebibytes c.max_expanded_mb)

enter :
    (c : ArtifactScannerConfig) (depth : ℕ) (x : Inspected) (u : Totals)
    → (if ltb c.max_archive_depth depth
        then err (policy "maximum archive nesting depth exceeded")
        else within_expanded c x)
      ≡ ok u
    → Level c depth x u
enter c depth x u h = elim (Bool-cases (ltb c.max_archive_depth depth)) [
  | inl deep ↦ absurd (ground arith)
  | inr fits ↦
      let inner = within_expanded_lem c x u (ground arith) in (ground arith, inner.0, inner.1)
]

module _ (c : ArtifactScannerConfig) where
  -- Past a member that is a file: it was admitted, its own file was inspected, then the rest
  regular-Passed :
      (depth size compressed stored : ℕ) (readable : Bool) (t v w u : Totals)
      (n b s k n1 b1 s1 k1 : ℕ) (Clean Rest : Type 0)
      → max 1 compressed ≡ stored
      → admit c size compressed readable t ≡ ok v
      → Passed c (suc depth) n b s k Clean v w
      → Passed c (suc depth) n1 b1 s1 k1 Rest w u
      → Passed c
          (suc depth)
          ((1 + n) + n1)
          ((size + b) + b1)
          ((stored + s) + s1)
          (max k k1)
          (((size ≤ mebibytes c.per_member_max_mb) × Clean) × Rest)
          t
          u
  regular-Passed depth size compressed stored readable t v w u n b s k n1 b1 s1 k1 Clean Rest same a
        p q =
      let admitted = admit_lem c size compressed readable t v a in
      let m : t.members + 1 ≡ v.members = ap (λ (x : Totals). x.members) admitted.0 in
      let e : t.expanded_bytes + size ≡ v.expanded_bytes =
        ap (λ (x : Totals). x.expanded_bytes) admitted.0 in
      let z : t.compressed_bytes + max 1 compressed ≡ v.compressed_bytes =
        ap (λ (x : Totals). x.compressed_bytes) admitted.0 in
      record {
        members_are = omega (arith, m, p.members_are, q.members_are);
        bytes_are = omega (arith, e, p.bytes_are, q.bytes_are);
        packed_are = omega (arith, z, same, p.packed_are, q.packed_are);
        members_fit = λ h. q.members_fit (p.members_fit admitted.1);
        ratio_fits = λ h. q.ratio_fits (p.ratio_fits admitted.2);
        height_fits = λ h. omega (arith, p.height_fits h, q.height_fits h);
        clean = ((admitted.3, p.clean), q.clean);
      }

  nothing-Passed : (depth : ℕ) (t u : Totals) → t ≡ u → Passed c depth 0 0 0 0 Unit t u
  nothing-Passed depth t u same =
      let m : t.members ≡ u.members = ap (λ (x : Totals). x.members) same in
      let e : t.expanded_bytes ≡ u.expanded_bytes = ap (λ (x : Totals). x.expanded_bytes) same in
      let z : t.compressed_bytes ≡ u.compressed_bytes =
        ap (λ (x : Totals). x.compressed_bytes) same in
      record {
        members_are = omega (arith, m);
        bytes_are = omega (arith, e);
        packed_are = omega (arith, z);
        members_fit = λ h. omega (arith, m);
        ratio_fits = λ h. subst (λ x. exceeds_ratio c x ≡ false) same h;
        height_fits = λ h. omega arith;
        clean = tt;
      }

  -- A level from what its members come to
  level-Passed :
      (depth : ℕ) (x : Inspected) (t u : Totals) (n b s k : ℕ) (Clean : Type 0)
      → Level c depth x u
      → Passed c (suc depth) n b s k Clean (deeper depth t) u
      → Passed c depth n b s (1 + k) Clean t u
  level-Passed depth x t u n b s k Clean level p = record {
    members_are = p.members_are;
    bytes_are = p.bytes_are;
    packed_are = p.packed_are;
    members_fit = p.members_fit;
    ratio_fits = p.ratio_fits;
    height_fits = λ h. omega (arith, p.height_fits level.0);
    clean = p.clean;
  }

  -- With a member that is no file, or whose facts are at hand
  skipped-Passed :
      (depth : ℕ) (t u : Totals) (n b s k : ℕ) (Rest Clean : Type 0)
      → Passed c (suc depth) n b s k Rest t u
      → (Rest → Clean)
      → Passed c (suc depth) (0 + n) (0 + b) (0 + s) (max 0 k) Clean t u
  skipped-Passed depth t u n b s k Rest Clean p f = record {
    members_are = omega (arith, p.members_are);
    bytes_are = omega (arith, p.bytes_are);
    packed_are = omega (arith, p.packed_are);
    members_fit = p.members_fit;
    ratio_fits = p.ratio_fits;
    height_fits = λ h. omega (arith, p.height_fits h);
    clean = f p.clean;
  }

  cleaned-Passed :
      (depth n b s k : ℕ) (A B : Type 0) (t u : Totals)
      → (A → B)
      → Passed c depth n b s k A t u
      → Passed c depth n b s k B t u
  cleaned-Passed depth n b s k A B t u f p = record {
    members_are = p.members_are;
    bytes_are = p.bytes_are;
    packed_are = p.packed_are;
    members_fit = p.members_fit;
    ratio_fits = p.ratio_fits;
    height_fits = p.height_fits;
    clean = f p.clean;
  }

  abbrev most : ℕ
  most = mebibytes c.per_member_max_mb

  mutual
    unfolding inspect members_of size_of packed_of height_of IsClean

    inspect-Passed :
        (depth : ℕ) (f : File) (t u : Totals)
        → inspect c depth f t ≡ ok u
        → Passed c depth (members_of f) (size_of f) (packed_of f) (height_of f) (IsClean most f) t u
    inspect-Passed depth plain t u h = nothing-Passed depth t u (ok_result_inj t u h)
    inspect-Passed depth locked t u h = absurd (ground arith)
    inspect-Passed depth (zipped ms) t u h =
        let level = enter c depth (inspect_zip c depth [] ms (deeper depth t)) u h in
        level-Passed depth _ t u _ _ _ _ _ level (zip-Passed depth [] ms (deeper depth t) u level.1)
    inspect-Passed depth (tarred ms) t u h =
        let level = enter c depth (inspect_tar c depth [] ms (deeper depth t)) u h in
        level-Passed depth _ t u _ _ _ _ _ level (tar-Passed depth [] ms (deeper depth t) u level.1)

    zip-Passed :
        (depth : ℕ) (names : List FilePath) (ms : ZipMembers) (t u : Totals)
        → inspect_zip c depth names ms t ≡ ok u
        → Passed c
            (suc depth)
            (zip_members_of ms)
            (zip_size_of ms)
            (zip_packed_of ms)
            (zip_height_of ms)
            (IsCleanZip most names ms)
            t
            u
    zip-Passed depth names zip_end t u h = nothing-Passed (suc depth) t u (ok_result_inj t u h)
    zip-Passed depth names (zip_member e f rest) t u h =
        let (good, clear, taken) = zip_step c depth names e f rest t u h in
        elim taken [
          | inl (dir, later) ↦ rw dir (
              skipped-Passed depth t u _ _ _ _ _ _
                (zip-Passed depth (name_of e.filename ∷ names) rest t u later)
                (λ r. (good, clear, tt, r)))
          | inr (regular, later) ↦
              let (v, admitted, more) =
                then-inv (admit c e.file_size e.compress_size true t) _ u later in
              let (w, nested, last) = then-inv (inspect c (suc depth) f v) _ u more in
              rw regular (
                cleaned-Passed (suc depth) _ _ _ _ _ _ t u (λ r. (good, clear, r.0, r.1))
                  (regular-Passed depth e.file_size e.compress_size (max 1 e.compress_size) true t v
                    w u _ _ _ _ _ _ _ _ _ _ refl admitted (inspect-Passed (suc depth) f v w nested)
                    (zip-Passed depth (name_of e.filename ∷ names) rest w u last)))
        ]

    tar-Passed :
        (depth : ℕ) (names : List FilePath) (ms : TarMembers) (t u : Totals)
        → inspect_tar c depth names ms t ≡ ok u
        → Passed c
            (suc depth)
            (tar_members_of ms)
            (tar_size_of ms)
            (tar_packed_of ms)
            (tar_height_of ms)
            (IsCleanTar most names ms)
            t
            u
    tar-Passed depth names tar_end t u h = nothing-Passed (suc depth) t u (ok_result_inj t u h)
    tar-Passed depth names (tar_member e f rest) t u h =
        let (good, clear, taken) = tar_step c depth names e f rest t u h in
        elim taken [
          | inl (other, later) ↦ rw other (
              skipped-Passed depth t u _ _ _ _ _ _
                (tar-Passed depth (name_of e.filename ∷ names) rest t u later)
                (λ r. (good, clear, tt, r)))
          | inr (regular, later) ↦
              let (v, admitted, more) =
                then-inv (admit c e.size (max 1 e.size) e.readable t) _ u later in
              let (w, nested, last) = then-inv (inspect c (suc depth) f v) _ u more in
              rw regular (
                cleaned-Passed (suc depth) _ _ _ _ _ _ t u (λ r. (good, clear, r.0, r.1))
                  (regular-Passed depth e.size (max 1 e.size) (max 1 e.size) e.readable t v w u _ _
                    _ _ _ _ _ _ _ _ (omega arith) admitted (inspect-Passed (suc depth) f v w nested)
                    (tar-Passed depth (name_of e.filename ∷ names) rest w u last)))
        ]

-- What an inspection that returns has established
pub record IsWithinLimits (c : ArtifactScannerConfig) (f : File) (t : Totals) : Type 0 where
  pub members_are : t.members ≡ members_of f
  pub members_fit : members_of f ≤ c.max_archive_members
  pub bytes_are : t.expanded_bytes ≡ size_of f
  pub bytes_fit : size_of f ≤ mebibytes c.max_expanded_mb
  pub packed_are : t.compressed_bytes ≡ packed_of f
  pub ratio_fits : size_of f ≤ c.max_compression_ratio * max 1 (packed_of f)
  pub height_fits : height_of f ≤ c.max_archive_depth
  pub clean : IsClean (mebibytes c.per_member_max_mb) f

established :
    (c : ArtifactScannerConfig) (f : File) (t : Totals)
    → Passed c 1
        (members_of f)
        (size_of f)
        (packed_of f)
        (height_of f)
        (IsClean (mebibytes c.per_member_max_mb) f)
        no_totals
        t
    → suc 1 ≤ suc c.max_archive_depth
    → t.expanded_bytes ≤ mebibytes c.max_expanded_mb
    → exceeds_ratio c t ≡ false
    → IsWithinLimits c f t
established c f t p entered fits ratio =
    let within : t.expanded_bytes ≤ c.max_compression_ratio * max 1 t.compressed_bytes =
      ground arith in
    let same : t.expanded_bytes ≡ size_of f = omega (arith, p.bytes_are) in
    let stored : t.compressed_bytes ≡ packed_of f = omega (arith, p.packed_are) in
    record {
      members_are = omega (arith, p.members_are);
      members_fit = omega (arith, p.members_are, p.members_fit (omega arith));
      bytes_are = same;
      bytes_fit = omega (arith, same);
      packed_are = stored;
      ratio_fits =
          subst (λ k. size_of f ≤ c.max_compression_ratio * max 1 k) stored
            (subst (λ n. n ≤ c.max_compression_ratio * max 1 t.compressed_bytes) same within);
      height_fits = omega (arith, p.height_fits (omega arith));
      clean = p.clean;
    }

-- When the inspection of an archive returns, its totals are those of an independent count over the
-- whole tree of members; the count, the expanded size, its ratio to the stored size, the depth and
-- the size of each member that is a file are within their limits, and no member at any level has a
-- name that leads out or is there twice, is a link or is encrypted.
pub inspect_archive-IsWithinLimits :
    (c : ArtifactScannerConfig) (f : File) (t : Totals)
    → f ≢ plain
    → inspect_archive c f ≡ ok t
    → IsWithinLimits c f t
unfolding inspect_archive inspect
inspect_archive-IsWithinLimits c plain t archive h = absurd (archive refl)
inspect_archive-IsWithinLimits c locked t archive h = absurd (ground arith)
inspect_archive-IsWithinLimits c (zipped ms) t archive h =
    let (u, e, last) = then-inv (inspect c 1 (zipped ms) no_totals) _ t h in
    let same : u ≡ t = ok_result_inj u t (ground arith) in
    let level = enter c 1 (inspect_zip c 1 [] ms (deeper 1 no_totals)) u e in
    subst (IsWithinLimits c (zipped ms)) same (
      established c (zipped ms) u (inspect-Passed c 1 (zipped ms) no_totals u e) level.0 level.2
        (ground arith))
inspect_archive-IsWithinLimits c (tarred ms) t archive h =
    let (u, e, last) = then-inv (inspect c 1 (tarred ms) no_totals) _ t h in
    let same : u ≡ t = ok_result_inj u t (ground arith) in
    let level = enter c 1 (inspect_tar c 1 [] ms (deeper 1 no_totals)) u e in
    subst (IsWithinLimits c (tarred ms)) same (
      established c (tarred ms) u (inspect-Passed c 1 (tarred ms) no_totals u e) level.0 level.2
        (ground arith))
