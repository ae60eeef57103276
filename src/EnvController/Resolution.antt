-- ===== src/EnvController/Resolution.antt =====
-- The paths that the resolution within the roots returns.
use mirageby_ai.Common.{
  ℕ, ◌≡◌, sym, ◌∙◌, String, true, false, List, [], ◌∷◌, ◌++◌, inl, inr, arith, Bool-cases,
  if◌then◌else◌, All, All-append, Option-cases,
}
use mathlib.Core.Path.{subst}
use mathlib.Core.List.{append-nil, append_assoc}
use mirageby_ai.Common.Exec.{ok, raise, err-ne-ok, ok_inj, bind_inv}
use mirageby_ai.Contracts.Text.{codes}
use mirageby_ai.Contracts.Json.{Json}
use mirageby_ai.EnvController.Paths.{
  FilePath, segments, is_absolute, resolve, resolve_from, is_dot_dot, parent, in_roots,
}
use mirageby_ai.EnvController.Host.{
  Host, Act, Failure, within_roots, resolve_codes, resolve_within_roots, resolve_param, required,
  get_or, entry_of, required_path, truthy,
}

-- A resolved path has no `..` left, so it is resolved to itself.
abbrev NoDots : FilePath → Type 0
NoDots p = All (λ s. is_dot_dot s ≡ false) p

NoDots-parent : (p : FilePath) → NoDots p → NoDots (parent p)
NoDots-parent [] h = h
NoDots-parent (s ∷ []) h = tt
NoDots-parent (s ∷ t ∷ p) h = (h.0, NoDots-parent (t ∷ p) h.1)

resolve_from-NoDots : (done p : FilePath) → NoDots done → NoDots (resolve_from done p)
unfolding resolve_from
resolve_from-NoDots done [] h = h
resolve_from-NoDots done (s ∷ p) h = elim (Bool-cases (is_dot_dot s)) [
  | inl e ↦ rw (e, resolve_from) (resolve_from-NoDots (parent done) p (NoDots-parent done h))
  | inr e ↦
      rw (e, resolve_from)
        (resolve_from-NoDots (done ++ s ∷ []) p (All-append _ done (s ∷ []) h (e, tt)))
]

resolve_from_plain : (done p : FilePath) → NoDots p → resolve_from done p ≡ done ++ p
unfolding resolve_from
resolve_from_plain done [] h = sym (append-nil done)
resolve_from_plain done (s ∷ p) h =
    rw (h.0, resolve_from)
      (resolve_from_plain (done ++ s ∷ []) p h.1 ∙ append_assoc done (s ∷ []) p)

pub resolve-resolve : (p : FilePath) → resolve (resolve p) ≡ resolve p
resolve-resolve p = resolve_from_plain [] (resolve p) (resolve_from-NoDots [] p tt)

-- Reading a parameter leaves the host as it is.
pub required_same :
    (k : String) (params : Json) (h : Host) (v : Json) (t : Host)
    → required k params h ≡ (ok v, t)
    → t ≡ h
unfolding required
required_same k (Json.obj d) h v t r = elim (Option-cases (entry_of k d)) [
  | inl e ↦ absurd (ground arith)
  | inr (w, e) ↦ sym (ok_inj {E = Failure} w v h t (ground arith)).1
]
required_same k Json.null h v t r = absurd (err-ne-ok _ v h t r)
required_same k (Json.flag b) h v t r = absurd (err-ne-ok _ v h t r)
required_same k (Json.num b) h v t r = absurd (err-ne-ok _ v h t r)
required_same k (Json.ratio b c) h v t r = absurd (err-ne-ok _ v h t r)
required_same k (Json.text b) h v t r = absurd (err-ne-ok _ v h t r)
required_same k (Json.arr b) h v t r = absurd (err-ne-ok _ v h t r)

pub get_or_same :
    (default : Json) (k : String) (params : Json) (h : Host) (v : Json) (t : Host)
    → get_or default k params h ≡ (ok v, t)
    → t ≡ h
unfolding get_or
get_or_same x k (Json.obj d) h v t r = elim (Option-cases (entry_of k d)) [
  | inl e ↦ sym (ok_inj {E = Failure} x v h t (ground arith)).1
  | inr (w, e) ↦ sym (ok_inj {E = Failure} w v h t (ground arith)).1
]
get_or_same x k Json.null h v t r = absurd (err-ne-ok _ v h t r)
get_or_same x k (Json.flag b) h v t r = absurd (err-ne-ok _ v h t r)
get_or_same x k (Json.num b) h v t r = absurd (err-ne-ok _ v h t r)
get_or_same x k (Json.ratio b c) h v t r = absurd (err-ne-ok _ v h t r)
get_or_same x k (Json.text b) h v t r = absurd (err-ne-ok _ v h t r)
get_or_same x k (Json.arr b) h v t r = absurd (err-ne-ok _ v h t r)

module _ (roots : List FilePath) where
  -- Whenever the path is returned, it is under a root and the host is as it was.
  abbrev pub ReturnsRooted : Act FilePath → Type 0
  ReturnsRooted m =
      (h : Host) (p : FilePath) (t : Host)
      → m h ≡ (ok p, t)
      → (in_roots roots p ≡ true) × (t ≡ h) × (resolve p ≡ p)

  ReturnsRooted-raise : (e : Failure) → ReturnsRooted (raise e)
  ReturnsRooted-raise e h p t r = absurd (err-ne-ok e p h t r)

  pub within_roots-ReturnsRooted : (p : FilePath) → ReturnsRooted (within_roots roots p)
  unfolding within_roots
  within_roots-ReturnsRooted p h q t r = elim (Bool-cases (in_roots roots (resolve p))) [
    | inl hit ↦
        let same = ok_inj {E = Failure} (resolve p) q h t (ground arith) in
        (
          subst (λ x. in_roots roots x ≡ true) same.0 hit,
          sym same.1,
          subst (λ x. resolve x ≡ x) same.0 (resolve-resolve p),
        )
    | inr miss ↦ absurd (ground arith)
  ]

  codes-ReturnsRooted : (cs : List ℕ) → ReturnsRooted (resolve_codes roots cs)
  unfolding resolve_codes
  codes-ReturnsRooted [] h q t r = ReturnsRooted-raise _ h q t r
  codes-ReturnsRooted (c ∷ s) h q t r = elim (Bool-cases (is_absolute (c ∷ s))) [
    | inl hit ↦ within_roots-ReturnsRooted (segments (c ∷ s)) h q t (ground arith)
    | inr miss ↦ absurd (ground arith)
  ]

  falsy-ReturnsRooted :
      (j : Json) (e f : Failure) → ReturnsRooted (if truthy j then raise e else raise f)
  falsy-ReturnsRooted j e f h q t r = absurd (ground arith)

  pub param-ReturnsRooted : (j : Json) → ReturnsRooted (resolve_param roots j)
  unfolding resolve_param resolve_within_roots
  param-ReturnsRooted (Json.text s) = codes-ReturnsRooted (codes s)
  param-ReturnsRooted Json.null = falsy-ReturnsRooted Json.null _ _
  param-ReturnsRooted (Json.flag b) = falsy-ReturnsRooted (Json.flag b) _ _
  param-ReturnsRooted (Json.num b) = falsy-ReturnsRooted (Json.num b) _ _
  param-ReturnsRooted (Json.ratio b c) = falsy-ReturnsRooted (Json.ratio b c) _ _
  param-ReturnsRooted (Json.arr b) = falsy-ReturnsRooted (Json.arr b) _ _
  param-ReturnsRooted (Json.obj b) = falsy-ReturnsRooted (Json.obj b) _ _

  pub required_path-ReturnsRooted :
      (k : String) (params : Json) → ReturnsRooted (required_path roots k params)
  required_path-ReturnsRooted k params h p t r =
      let (j, u, e, f) = bind_inv (required k params) (resolve_param roots) h p t r in
      let last = param-ReturnsRooted j u p t f in
      (last.0, last.1 ∙ required_same k params h j u e, last.2)

  pub required_path-InRoots :
      (k : String) (params : Json) (h : Host) (p : FilePath) (t : Host)
      → required_path roots k params h ≡ (ok p, t)
      → in_roots roots p ≡ true
  required_path-InRoots k params h p t r = (required_path-ReturnsRooted k params h p t r).0
