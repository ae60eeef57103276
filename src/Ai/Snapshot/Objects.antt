-- ===== src/Ai/Snapshot/Objects.antt =====
-- `_bounded_json_object` of libs/mirage_common/ai.py: the end of its loop, and its bound.
use mirageby_ai.Common.{
  ℕ, zero, suc, ◌≤◌, ◌<◌, ◌≡◌, refl, sym, ◌∙◌, ltb, String, Bool, true, false, not, ◌||◌, List, [],
  ◌∷◌, ◌⊎◌, inl, inr, any, select, length, arith, Bool-cases, str_eq, eq_iff, if◌then◌else◌,
}
use mirageby_ai.Common.Exec.{Result, ok, err}
use mirageby_ai.Contracts.Json.{Json}
use mirageby_ai.Ai.Snapshot.{
  Libraries, SnapshotError, object_too_large, greatest_key, precedes, pop_greatest, bounded_rounds,
  bounded_json_object,
}

or_left : (a b : Bool) → a ≡ true → a || b ≡ true
or_left a b h = ground arith

or_right : (a b : Bool) → b ≡ true → a || b ≡ true
or_right a b h = ground arith

abbrev chosen : String → String → String
chosen k j = if precedes k j then j else k

chosen-cases : (k j : String) → (chosen k j ≡ k) ⊎ (chosen k j ≡ j)
chosen-cases k j = elim (Bool-cases (precedes k j)) [
  | inl e ↦ rw e (inr refl)
  | inr e ↦ rw e (inl refl)
]

-- The greatest key is one of the keys, so that it takes an entry away.
greatest_key-IsKey :
    (k : String) (rest : List (String × Json))
    → (greatest_key k rest ≡ k) ⊎ (any (λ x. str_eq x.0 (greatest_key k rest)) rest ≡ true)
greatest_key-IsKey k [] = inl refl
greatest_key-IsKey k ((j, v) ∷ rest) =
    let m = chosen k j in
    let g = greatest_key m rest in
    elim (greatest_key-IsKey m rest) [
      | inr held ↦ inr (or_right (str_eq j g) _ held)
      | inl own ↦ elim (chosen-cases k j) [
        | inl old ↦ inl (own ∙ old)
        | inr new ↦ inr (or_left (str_eq j g) _ ((eq_iff j g).1 (sym (own ∙ new))))
      ]
    ]

length-select-le : {A : Type 0} (p : A → Bool) (xs : List A) → length (select p xs) ≤ length xs
length-select-le p [] = omega arith
length-select-le p (x ∷ xs) = ground (arith, length-select-le p xs)

length-select-lt :
    {A : Type 0} (p : A → Bool) (xs : List A)
    → any p xs ≡ true
    → length (select (λ x. not (p x)) xs) < length xs
length-select-lt p [] h = cc
length-select-lt p (x ∷ xs) h = elim (Bool-cases (p x)) [
  | inl e ↦ ground (arith, length-select-le (λ y. not (p y)) xs)
  | inr e ↦ ground (arith, length-select-lt p xs (ground arith))
]

pop_greatest_less :
    (e : String × Json) (rest : List (String × Json))
    → length (pop_greatest e rest) < suc (length rest)
pop_greatest_less e rest =
    let k = greatest_key e.0 rest in
    length-select-lt (λ (x : String × Json). str_eq x.0 k) (e ∷ rest)
      (elim (greatest_key-IsKey e.0 rest) [
        | inl own ↦ or_left (str_eq e.0 k) _ ((eq_iff e.0 k).1 (sym own))
        | inr held ↦ or_right (str_eq e.0 k) _ held
      ])

-- An object fits its bound, or even the empty object does not.
abbrev pub IsBounded : Libraries → ℕ → Result SnapshotError (List (String × Json)) → Type 0
IsBounded libs max_bytes (ok o) = length (libs.object_bytes o) ≤ max_bytes
IsBounded libs max_bytes (err e) =
    (e ≡ object_too_large) × (max_bytes < length (libs.object_bytes []))

-- One round of the loop, by its test and by what the rounds after it give
round-IsBounded :
    (libs : Libraries) (max_bytes : ℕ) (o : List (String × Json)) (over : Bool)
    (later : Result SnapshotError (List (String × Json)))
    → ltb max_bytes (length (libs.object_bytes o)) ≡ over
    → (over ≡ true → IsBounded libs max_bytes later)
    → IsBounded libs max_bytes (elim over [ false ↦ ok o | true ↦ later ])
round-IsBounded libs max_bytes o true later e h = h refl
round-IsBounded libs max_bytes o false later e h = ground arith

bounded_rounds-IsBounded :
    (fuel : ℕ) (libs : Libraries) (max_bytes : ℕ) (o : List (String × Json))
    → length o < fuel
    → IsBounded libs max_bytes (bounded_rounds fuel libs max_bytes o)
unfolding bounded_rounds
bounded_rounds-IsBounded zero libs max_bytes o h = absurd (omega arith)
bounded_rounds-IsBounded (suc fuel) libs max_bytes [] h =
    round-IsBounded libs max_bytes [] _ (err object_too_large) refl (λ over. (refl, ground arith))
bounded_rounds-IsBounded (suc fuel) libs max_bytes (e ∷ rest) h =
    round-IsBounded libs max_bytes (e ∷ rest) _
      (bounded_rounds fuel libs max_bytes (pop_greatest e rest)) refl
      (λ over.
        bounded_rounds-IsBounded fuel libs max_bytes (pop_greatest e rest)
          (omega (arith, pop_greatest_less e rest)))

pub bounded_json_object-IsBounded :
    (libs : Libraries) (value : List (String × Json)) (max_bytes : ℕ)
    → IsBounded libs max_bytes (bounded_json_object libs value max_bytes)
unfolding bounded_json_object
bounded_json_object-IsBounded libs value max_bytes =
    bounded_rounds-IsBounded (suc (length (libs.reread value))) libs max_bytes (libs.reread value)
      (omega arith)
