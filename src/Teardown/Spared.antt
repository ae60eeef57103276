-- ===== src/Teardown/Spared.antt =====
-- The resources that a deactivation leaves as they are.
use mirageby_ai.Common.{
  cons-ne-nil, String, Bool, true, false, ◌&&◌, ◌≡◌, ◌≢◌, refl, ap, sym, ◌∙◌, ◌⊎◌, inl, inr, List,
  [], ◌∷◌, arith, All, select, eq_iff, str_eq, Bool-cases, if◌then◌else◌,
}
use mirageby_ai.Teardown.Types.{CloudResource, ResourceType, Config}
use mirageby_ai.Teardown.Resources.{is_listed, is_disposable, deactivate_each, deactivate}

-- The adapter keeps its resources in a dict by their identifiers.
abbrev pub Distinct : List CloudResource → Type 0
Distinct [] = Unit
Distinct (x ∷ xs) = All (λ y. x.resource_id ≢ y.resource_id) xs × Distinct xs

abbrev pub deactivated : CloudResource → CloudResource
deactivated x = record x { active = false }

-- A resource stays as it is, or it is a disposable one of the case and no longer active.
abbrev pub IsSpared : Config → CloudResource → CloudResource → Type 0
IsSpared c x y = (y ≡ x) ⊎ ((is_listed c x ≡ true) × (is_disposable x ≡ true) × (y ≡ deactivated x))

abbrev pub Spared : Config → List CloudResource → List CloudResource → Type 0
Spared c [] ys = ys ≡ []
Spared c (x ∷ xs) [] = ⊥
Spared c (x ∷ xs) (y ∷ ys) = IsSpared c x y × Spared c xs ys

pub Spared-refl : (c : Config) (xs : List CloudResource) → Spared c xs xs
Spared-refl c [] = refl
Spared-refl c (x ∷ xs) = (inl refl, Spared-refl c xs)

IsSpared-trans :
    (c : Config) (x y z : CloudResource) → IsSpared c x y → IsSpared c y z → IsSpared c x z
IsSpared-trans c x y z (inl e) (inl f) = inl (f ∙ e)
IsSpared-trans c x y z (inl e) (inr (l, d, f)) =
    inr (ap (is_listed c) (sym e) ∙ l, ap is_disposable (sym e) ∙ d, f ∙ ap deactivated e)
IsSpared-trans c x y z (inr h) (inl f) = inr (h.0, h.1, f ∙ h.2)
IsSpared-trans c x y z (inr h) (inr (l, d, f)) = inr (h.0, h.1, f ∙ ap deactivated h.2)

pub Spared-trans :
    (c : Config) (xs ys zs : List CloudResource) → Spared c xs ys → Spared c ys zs → Spared c xs zs
Spared-trans c [] [] zs h k = k
Spared-trans c [] (y ∷ ys) zs h k = absurd (cons-ne-nil y ys h)
Spared-trans c (x ∷ xs) [] zs h k = elim h [ ]
Spared-trans c (x ∷ xs) (y ∷ ys) [] h k = k
Spared-trans c (x ∷ xs) (y ∷ ys) (z ∷ zs) h k =
    (IsSpared-trans c x y z h.0 k.0, Spared-trans c xs ys zs h.1 k.1)

-- The only resource under the identifier of x is x, and the case's inventory lists it.
abbrev Owns : Config → List CloudResource → CloudResource → Type 0
Owns c rs x = (is_listed c x ≡ true) × All (λ z. z.resource_id ≡ x.resource_id → z ≡ x) rs

deactivate-IsSpared :
    (c : Config) (x z y : CloudResource)
    → is_listed c x ≡ true
    → (z.resource_id ≡ x.resource_id → z ≡ x)
    → is_disposable x ≡ true
    → IsSpared c z y
    → IsSpared c z (if str_eq y.resource_id x.resource_id then deactivated y else y)
deactivate-IsSpared c x z y l only d h = elim (Bool-cases (str_eq y.resource_id x.resource_id)) [
  | inr other ↦ rw other h
  | inl same ↦
      let e : z ≡ x = only (id_of h ∙ (eq_iff y.resource_id x.resource_id).0 same) in
      rw same (inr (ap (is_listed c) e ∙ l, ap is_disposable e ∙ d, off h))
]
  where
    id_of : IsSpared c z y → z.resource_id ≡ y.resource_id
    id_of (inl e) = ap (λ (r : CloudResource). r.resource_id) (sym e)
    id_of (inr k) = ap (λ (r : CloudResource). r.resource_id) (sym k.2)

    off : IsSpared c z y → deactivated y ≡ deactivated z
    off (inl e) = ap deactivated e
    off (inr k) = ap deactivated k.2

deactivate-Spared :
    (c : Config) (x : CloudResource) (zs ys : List CloudResource)
    → Owns c zs x
    → is_disposable x ≡ true
    → Spared c zs ys
    → Spared c zs (deactivate x.resource_id ys)
deactivate-Spared c x [] [] o d h = refl
deactivate-Spared c x [] (y ∷ ys) o d h = absurd (cons-ne-nil y ys h)
deactivate-Spared c x (z ∷ zs) [] o d h = h
deactivate-Spared c x (z ∷ zs) (y ∷ ys) (l, (only, rest)) d h =
    (deactivate-IsSpared c x z y l only d h.0, deactivate-Spared c x zs ys (l, rest) d h.1)

pub deactivate_each-Spared :
    (c : Config) (types : ResourceType → Bool) (xs zs ys : List CloudResource)
    → All (Owns c zs) xs
    → Spared c zs ys
    → Spared c zs (deactivate_each types xs ys)
deactivate_each-Spared c types [] zs ys o h = h
deactivate_each-Spared c types (x ∷ xs) zs ys o h =
    deactivate_each-Spared c types xs zs _ o.1
      (elim (Bool-cases (types x.resource_type && is_disposable x)) [
        | inr kept ↦ rw kept h
        | inl hit ↦ rw hit (deactivate-Spared c x zs ys o.0 (ground arith) h)
      ])

Owns-cons :
    (c : Config) (x : CloudResource) (zs xs : List CloudResource)
    → All (λ y. x.resource_id ≢ y.resource_id) xs
    → All (Owns c zs) xs
    → All (Owns c (x ∷ zs)) xs
Owns-cons c x zs [] apart o = tt
Owns-cons c x zs (w ∷ ws) apart o =
    ((o.0.0, (λ e. absurd (apart.0 e), o.0.1)), Owns-cons c x zs ws apart.1 o.1)

All-select :
    (P : CloudResource → Type 0) (p : CloudResource → Bool) (xs : List CloudResource)
    → All P xs
    → All P (select p xs)
All-select P p [] h = tt
All-select P p (x ∷ xs) h = elim (Bool-cases (p x)) [
  | inl hit ↦ rw hit (h.0, All-select P p xs h.1)
  | inr miss ↦ rw miss (All-select P p xs h.1)
]

apart_only :
    (x : CloudResource) (zs : List CloudResource)
    → All (λ y. x.resource_id ≢ y.resource_id) zs
    → All (λ z. z.resource_id ≡ x.resource_id → z ≡ x) zs
apart_only x [] h = tt
apart_only x (z ∷ zs) h = (λ e. absurd (h.0 (sym e)), apart_only x zs h.1)

pub inventory-Owns :
    (c : Config) (zs : List CloudResource) → Distinct zs → All (Owns c zs) (select (is_listed c) zs)
inventory-Owns c [] d = tt
inventory-Owns c (x ∷ zs) d =
    let rest =
      Owns-cons c x zs (select (is_listed c) zs)
        (All-select (λ y. x.resource_id ≢ y.resource_id) (is_listed c) zs d.0)
        (inventory-Owns c zs d.1) in
    elim (Bool-cases (is_listed c x)) [
      | inl hit ↦ rw hit ((hit, ((λ e. refl), apart_only x zs d.0)), rest)
      | inr miss ↦ rw miss rest
    ]

ids_apart :
    (c : Config) (i : String) (xs ys : List CloudResource)
    → Spared c xs ys
    → All (λ y. i ≢ y.resource_id) xs
    → All (λ y. i ≢ y.resource_id) ys
ids_apart c i [] [] h a = tt
ids_apart c i [] (y ∷ ys) h a = absurd (cons-ne-nil y ys h)
ids_apart c i (x ∷ xs) [] h a = tt
ids_apart c i (x ∷ xs) (y ∷ ys) (inl e, h) a =
    (λ f. a.0 (f ∙ ap (λ (r : CloudResource). r.resource_id) e), ids_apart c i xs ys h a.1)
ids_apart c i (x ∷ xs) (y ∷ ys) (inr k, h) a =
    (λ f. a.0 (f ∙ ap (λ (r : CloudResource). r.resource_id) k.2), ids_apart c i xs ys h a.1)

pub Distinct-Spared :
    (c : Config) (xs ys : List CloudResource) → Spared c xs ys → Distinct xs → Distinct ys
Distinct-Spared c xs [] h d = tt
Distinct-Spared c [] (y ∷ ys) h d = absurd (cons-ne-nil y ys h)
Distinct-Spared c (x ∷ xs) (y ∷ ys) (inl e, h) d =
    (ids_apart c y.resource_id xs ys h (retold e), Distinct-Spared c xs ys h d.1)
  where
    retold : y ≡ x → All (λ z. y.resource_id ≢ z.resource_id) xs
    retold e = rw e d.0
Distinct-Spared c (x ∷ xs) (y ∷ ys) (inr k, h) d =
    (ids_apart c y.resource_id xs ys h (retold k.2), Distinct-Spared c xs ys h d.1)
  where
    retold : y ≡ deactivated x → All (λ z. y.resource_id ≢ z.resource_id) xs
    retold e = rw e d.0
