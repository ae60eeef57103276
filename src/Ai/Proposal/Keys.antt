-- ===== src/Ai/Proposal/Keys.antt =====
-- The keys at every depth of a value, as reject_executable_content collects them and as a relation.
use mirageby_ai.Common.{
  ◌≡◌, refl, ap, ◌∙◌, String, Bool, false, ◌||◌, List, [], ◌∷◌, ◌++◌, any, arith,
}
use mirageby_ai.Contracts.Json.{
  Json, Items, Fields, null, flag, num, ratio, text, arr, obj, nil, cons, end, entry,
}
use mirageby_ai.Ai.Proposal.{all_keys, item_keys, field_keys, is_dangerous}

-- A key stands somewhere in a value.
mutual
  pub data InJson (k : String) : Json → Type 0 where
    in_items : (xs : Items) → InItems k xs → InJson k (arr xs)
    in_fields : (fs : Fields) → InFields k fs → InJson k (obj fs)

  pub data InItems (k : String) : Items → Type 0 where
    this_item : (j : Json) (rest : Items) → InJson k j → InItems k (cons j rest)
    later_item : (j : Json) (rest : Items) → InItems k rest → InItems k (cons j rest)

  pub data InFields (k : String) : Fields → Type 0 where
    this_key : (i : String) (j : Json) (rest : Fields) → k ≡ i → InFields k (entry i j rest)
    this_value : (i : String) (j : Json) (rest : Fields) → InJson k j → InFields k (entry i j rest)
    later_field :
        (i : String) (j : Json) (rest : Fields) → InFields k rest → InFields k (entry i j rest)

any-append : {A : Type 0} (p : A → Bool) (xs ys : List A) → any p (xs ++ ys) ≡ any p xs || any p ys
any-append p [] ys = refl
any-append p (x ∷ xs) ys = ground (arith, any-append p xs ys)

module _ (lower : String → String) where
  mutual
    unfolding all_keys

    pub harmless_json :
        (k : String) (j : Json)
        → any is_dangerous (all_keys lower j) ≡ false
        → InJson k j
        → is_dangerous (lower k) ≡ false
    harmless_json k null h i = elim i [ ]
    harmless_json k (flag b) h i = elim i [ ]
    harmless_json k (num n) h i = elim i [ ]
    harmless_json k (ratio n d) h i = elim i [ ]
    harmless_json k (text t) h i = elim i [ ]
    harmless_json k (arr xs) h (in_items _ i) = harmless_items k xs h i
    harmless_json k (obj fs) h (in_fields _ i) = harmless_fields k fs h i

    harmless_items :
        (k : String) (xs : Items)
        → any is_dangerous (item_keys lower xs) ≡ false
        → InItems k xs
        → is_dangerous (lower k) ≡ false
    harmless_items k nil h i = elim i [ ]
    harmless_items k (cons j rest) h (this_item _ _ i) =
        harmless_json k j
          (ground (arith, any-append is_dangerous (all_keys lower j) (item_keys lower rest))) i
    harmless_items k (cons j rest) h (later_item _ _ i) =
        harmless_items k rest
          (ground (arith, any-append is_dangerous (all_keys lower j) (item_keys lower rest))) i

    harmless_fields :
        (k : String) (fs : Fields)
        → any is_dangerous (field_keys lower fs) ≡ false
        → InFields k fs
        → is_dangerous (lower k) ≡ false
    harmless_fields k end h i = elim i [ ]
    harmless_fields k (entry i j rest) h (this_key _ _ _ e) =
        ap (λ x. is_dangerous (lower x)) e ∙ ground arith
    harmless_fields k (entry i j rest) h (this_value _ _ _ w) =
        harmless_json k j
          (ground (arith, any-append is_dangerous (all_keys lower j) (field_keys lower rest))) w
    harmless_fields k (entry i j rest) h (later_field _ _ _ w) =
        harmless_fields k rest
          (ground (arith, any-append is_dangerous (all_keys lower j) (field_keys lower rest))) w

  mutual
    unfolding all_keys

    no_danger_json :
        (j : Json)
        → ((k : String) → InJson k j → is_dangerous (lower k) ≡ false)
        → any is_dangerous (all_keys lower j) ≡ false
    no_danger_json null h = refl
    no_danger_json (flag b) h = refl
    no_danger_json (num n) h = refl
    no_danger_json (ratio n d) h = refl
    no_danger_json (text t) h = refl
    no_danger_json (arr xs) h = no_danger_items xs (λ k i. h k (in_items xs i))
    no_danger_json (obj fs) h = no_danger_fields fs (λ k i. h k (in_fields fs i))

    no_danger_items :
        (xs : Items)
        → ((k : String) → InItems k xs → is_dangerous (lower k) ≡ false)
        → any is_dangerous (item_keys lower xs) ≡ false
    no_danger_items nil h = refl
    no_danger_items (cons j rest) h = ground (
      arith,
      any-append is_dangerous (all_keys lower j) (item_keys lower rest),
      no_danger_json j (λ k i. h k (this_item j rest i)),
      no_danger_items rest (λ k i. h k (later_item j rest i)),
    )

    pub no_danger_fields :
        (fs : Fields)
        → ((k : String) → InFields k fs → is_dangerous (lower k) ≡ false)
        → any is_dangerous (field_keys lower fs) ≡ false
    no_danger_fields end h = refl
    no_danger_fields (entry i j rest) h = ground (
      arith,
      any-append is_dangerous (all_keys lower j) (field_keys lower rest),
      h i (this_key i j rest refl),
      no_danger_json j (λ k w. h k (this_value i j rest w)),
      no_danger_fields rest (λ k w. h k (later_field i j rest w)),
    )
