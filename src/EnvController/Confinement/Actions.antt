-- ===== src/EnvController/Confinement/Actions.antt =====
-- The confinement of the actions: what exists outside of the approved roots and of the data directory.
use mirageby_ai.Common.{
  ℕ, ◌≡◌, sym, String, Bool, true, false, ◌||◌, Option, none, some, List, [], ◌∷◌, ◌⊎◌, inl, inr,
  arith, Bool-cases, any, if◌then◌else◌, All, All-mono,
}
use mathlib.Core.Path.{subst}
use mirageby_ai.Common.Exec.{ok, pure, raise, err-ne-ok, ok_inj}
use mirageby_ai.Contracts.Text.{codes}
use mirageby_ai.Contracts.Json.{Json}
use mirageby_ai.EnvController.Paths.{
  FilePath, is_under, parent, resolve, in_roots, is_absolute, segments,
}
use mirageby_ai.EnvController.Files.Lookup.{
  is_under_trans, is_under-append, is_under_refl, is_under-parent,
}
use mirageby_ai.EnvController.Host.{
  Host, Act, Failure, Context, crashed, restricted_path, required, get_or, within_roots,
  resolve_within_roots, resolve_codes, resolve_param, required_path, entry_of, first_root, truthy,
}
use mirageby_ai.EnvController.Downloads.{temp_path}
use mirageby_ai.EnvController.Confinement.{
  Confined, HasTree, Confined-pure, Confined-raise, Confined-bind, Confined-if, Confined-or_raise,
}

-- Where an action may change what exists: below an approved root or the data directory, the
-- temporary file of a download onto a root itself, and with a baseline what is beside the first root.
abbrev pub is_download_of_root : List FilePath → FilePath → Bool
is_download_of_root roots q = any (λ root. is_under (temp_path (resolve root)) q) roots

abbrev pub beside_first_root : List FilePath → Option FilePath → FilePath → Bool
beside_first_root [] baseline q = false
beside_first_root (root ∷ roots) none q = false
beside_first_root (root ∷ roots) (some snapshot) q = is_under (parent root) q

unfoldable pub may_change : Context → FilePath → Bool
may_change ctx q =
    in_roots ctx.allowed_roots q
    || is_under ctx.programdata q
    || is_download_of_root ctx.allowed_roots q
    || beside_first_root ctx.allowed_roots ctx.baseline_snapshot q

in_roots-HasTree :
    (roots : List FilePath) (p q : FilePath)
    → in_roots roots p ≡ true
    → is_under p q ≡ true
    → in_roots roots q ≡ true
unfolding in_roots
in_roots-HasTree [] p q h below = absurd (ground arith)
in_roots-HasTree (root ∷ roots) p q h below =
    ground (arith, is_under_trans (resolve root) p q, in_roots-HasTree roots p q)

is_download-HasTree :
    (roots : List FilePath) (p q : FilePath)
    → is_download_of_root roots p ≡ true
    → is_under p q ≡ true
    → is_download_of_root roots q ≡ true
is_download-HasTree [] p q h below = absurd (ground arith)
is_download-HasTree (root ∷ roots) p q h below =
    ground (arith, is_under_trans (temp_path (resolve root)) p q, is_download-HasTree roots p q)

temp_path-InRoots :
    (roots : List FilePath) (p : FilePath)
    → in_roots roots p ≡ true
    → (in_roots roots (temp_path p) ≡ true) ⊎ (is_download_of_root roots (temp_path p) ≡ true)
unfolding in_roots
temp_path-InRoots [] p h = absurd (ground arith)
temp_path-InRoots (root ∷ roots) p h = elim (Bool-cases (is_under (resolve root) p)) [
  | inl hit ↦ elim (is_under-parent (resolve root) p hit) [
    | inl same ↦
        let own : is_under (temp_path (resolve root)) (temp_path p) ≡ true =
          subst (λ x. is_under (temp_path (resolve root)) (temp_path x) ≡ true) same
            (is_under_refl (temp_path (resolve root))) in
        inr (ground arith)
    | inr above ↦
        let beside : is_under (resolve root) (temp_path p) ≡ true =
          is_under_trans (resolve root) (parent p) (temp_path p) above
            (is_under-append (parent p) _) in
        inl (ground arith)
  ]
  | inr miss ↦ elim (temp_path-InRoots roots p (ground arith)) [
    | inl e ↦ inl (ground arith)
    | inr e ↦ inr (ground arith)
  ]
]

pub roots-InRoots :
    (roots : List FilePath)
    → All (λ root. resolve root ≡ root) roots
    → All (λ r. in_roots roots r ≡ true) roots
unfolding in_roots
roots-InRoots [] plain = plain
roots-InRoots (root ∷ roots) plain =
    let own : is_under (resolve root) root ≡ true =
      subst (λ x. is_under x root ≡ true) (sym plain.0) (is_under_refl root) in
    (
      ground arith,
      All-mono (λ r. in_roots roots r ≡ true) (λ r. in_roots (root ∷ roots) r ≡ true) roots
          (λ r h. ground arith) (roots-InRoots roots plain.1),
    )

pub first_root-InRoots :
    (roots : List FilePath)
    → All (λ root. resolve root ≡ root) roots
    → (h : Host) (p : FilePath) (t : Host) → first_root roots h ≡ (ok p, t)
    → in_roots roots p ≡ true
unfolding in_roots
first_root-InRoots [] plain h p t r = absurd (err-ne-ok _ p h t r)
first_root-InRoots (root ∷ roots) plain h p t r =
    let same = ok_inj {E = Failure} root p h t r in
    let own : is_under (resolve root) root ≡ true =
      subst (λ x. is_under x root ≡ true) (sym plain.0) (is_under_refl root) in
    subst (λ x. any (λ r. is_under (resolve r) x) (root ∷ roots) ≡ true) same.0 (ground arith)

module _ (ctx : Context) where
  pub may_change-root :
      (p : FilePath) → in_roots ctx.allowed_roots p ≡ true → HasTree (may_change ctx) p
  unfolding may_change
  may_change-root p h q below = ground (arith, in_roots-HasTree ctx.allowed_roots p q h below)

  pub may_change-temp :
      (p : FilePath) → in_roots ctx.allowed_roots p ≡ true → HasTree (may_change ctx) (temp_path p)
  unfolding may_change
  may_change-temp p h q below = elim (temp_path-InRoots ctx.allowed_roots p h) [
    | inl e ↦ ground (arith, in_roots-HasTree ctx.allowed_roots (temp_path p) q e below)
    | inr e ↦ ground (arith, is_download-HasTree ctx.allowed_roots (temp_path p) q e below)
  ]

  pub may_change-programdata :
      (p : FilePath) → is_under ctx.programdata p ≡ true → HasTree (may_change ctx) p
  unfolding may_change
  may_change-programdata p h q below = ground (arith, is_under_trans ctx.programdata p q h below)

  pub may_change-beside :
      (q : FilePath)
      → beside_first_root ctx.allowed_roots ctx.baseline_snapshot q ≡ true
      → may_change ctx q ≡ true
  unfolding may_change
  may_change-beside q h = ground arith

  abbrev pub Keeps : {A : Type 0} → Act A → Type 0
  Keeps m = Confined (may_change ctx) m

  pub Keeps-required : (k : String) (params : Json) → Keeps (required k params)
  unfolding required
  Keeps-required k (Json.obj d) = Confined-or_raise (may_change ctx) (entry_of k d) (crashed k)
  Keeps-required k Json.null = Confined-raise (may_change ctx) Json (crashed "TypeError")
  Keeps-required k (Json.flag b) = Confined-raise (may_change ctx) Json (crashed "TypeError")
  Keeps-required k (Json.num b) = Confined-raise (may_change ctx) Json (crashed "TypeError")
  Keeps-required k (Json.ratio b c) = Confined-raise (may_change ctx) Json (crashed "TypeError")
  Keeps-required k (Json.text b) = Confined-raise (may_change ctx) Json (crashed "TypeError")
  Keeps-required k (Json.arr b) = Confined-raise (may_change ctx) Json (crashed "TypeError")

  pub Keeps-entry :
      (default : Json) (o : Option Json) → Keeps (elim o [ none ↦ pure default | some v ↦ pure v ])
  Keeps-entry default none = Confined-pure (may_change ctx) default
  Keeps-entry default (some v) = Confined-pure (may_change ctx) v

  pub Keeps-get_or : (default : Json) (k : String) (params : Json) → Keeps (get_or default k params)
  unfolding get_or
  Keeps-get_or d k (Json.obj fs) = Keeps-entry d (entry_of k fs)
  Keeps-get_or d k Json.null = Confined-raise (may_change ctx) Json (crashed "AttributeError")
  Keeps-get_or d k (Json.flag b) = Confined-raise (may_change ctx) Json (crashed "AttributeError")
  Keeps-get_or d k (Json.num b) = Confined-raise (may_change ctx) Json (crashed "AttributeError")
  Keeps-get_or d k (Json.ratio b c) =
      Confined-raise (may_change ctx) Json (crashed "AttributeError")
  Keeps-get_or d k (Json.text b) = Confined-raise (may_change ctx) Json (crashed "AttributeError")
  Keeps-get_or d k (Json.arr b) = Confined-raise (may_change ctx) Json (crashed "AttributeError")

  pub Keeps-within_roots : (p : FilePath) → Keeps (within_roots ctx.allowed_roots p)
  unfolding within_roots
  Keeps-within_roots p =
      Confined-if (may_change ctx) (in_roots ctx.allowed_roots (resolve p)) _ _
        (Confined-pure (may_change ctx) (resolve p)) (Confined-raise (may_change ctx) FilePath _)

  pub Keeps-resolve_text : (cs : List ℕ) → Keeps (resolve_codes ctx.allowed_roots cs)
  unfolding resolve_codes
  Keeps-resolve_text [] = Confined-raise (may_change ctx) FilePath (restricted_path "empty path")
  Keeps-resolve_text (c ∷ s) =
      Confined-if (may_change ctx) (is_absolute (c ∷ s)) _ _ (Keeps-within_roots (segments (c ∷ s)))
        (Confined-raise (may_change ctx) FilePath _)

  pub Keeps-falsy :
      (j : Json) (e f : Failure) → Keeps {A = FilePath} (if truthy j then raise e else raise f)
  Keeps-falsy j e f =
      Confined-if (may_change ctx) (truthy j) _ _ (Confined-raise (may_change ctx) FilePath e)
        (Confined-raise (may_change ctx) FilePath f)

  pub Keeps-resolve_param : (j : Json) → Keeps (resolve_param ctx.allowed_roots j)
  unfolding resolve_param resolve_within_roots
  Keeps-resolve_param (Json.text s) = Keeps-resolve_text (codes s)
  Keeps-resolve_param Json.null = Keeps-falsy Json.null _ _
  Keeps-resolve_param (Json.flag b) = Keeps-falsy (Json.flag b) _ _
  Keeps-resolve_param (Json.num b) = Keeps-falsy (Json.num b) _ _
  Keeps-resolve_param (Json.ratio b c) = Keeps-falsy (Json.ratio b c) _ _
  Keeps-resolve_param (Json.arr b) = Keeps-falsy (Json.arr b) _ _
  Keeps-resolve_param (Json.obj b) = Keeps-falsy (Json.obj b) _ _

  pub Keeps-required_path :
      (k : String) (params : Json) → Keeps (required_path ctx.allowed_roots k params)
  Keeps-required_path k params =
      Confined-bind (may_change ctx) (required k params) (resolve_param ctx.allowed_roots)
        (Keeps-required k params) Keeps-resolve_param
