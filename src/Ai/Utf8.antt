-- ===== src/Ai/Utf8.antt =====
-- `_truncate_utf8` of libs/mirage_common/ai.py. A text is the list of its code points. A surrogate,
-- for which encode raises, is none of the characters that the properties are about.
use mirageby_ai.Common.{
  ℕ, zero, suc, ◌+◌, ◌-◌, ◌*◌, ◌/◌, ◌%◌, ◌≤◌, ◌<◌, ◌≡◌, refl, ap, ◌∙◌, sym, List, [], ◌∷◌, ◌++◌,
  leb, ltb, length, length-append, take, take-append_beyond, take-append_within, All, arith,
  if◌then◌else◌, Bool-cases, inl, inr, ◌⊎◌,
}

abbrev pub Text : Type 0
Text = List ℕ

-- str.encode("utf-8")
unfoldable pub encode_char : ℕ → List ℕ
encode_char c =
    if ltb c 128
    then c ∷ []
    else if ltb c 2048
    then (192 + c / 64) ∷ (128 + c % 64) ∷ []
    else if ltb c 65536
    then (224 + c / 4096) ∷ (128 + c / 64 % 64) ∷ (128 + c % 64) ∷ []
    else (240 + c / 262144) ∷ (128 + c / 4096 % 64) ∷ (128 + c / 64 % 64) ∷ (128 + c % 64) ∷ []

unfoldable pub encode : Text → List ℕ
encode [] = []
encode (c ∷ s) = encode_char c ++ encode s

-- bytes.decode("utf-8", errors="ignore") of the start of an encoded text: with so many bytes of a
-- character to come and the bits read of it. A character that the end cuts off is left out.
unfoldable pub decode : ℕ → ℕ → List ℕ → Text
decode n v [] = []
decode zero v (b ∷ bs) =
    if ltb b 128
    then b ∷ decode zero 0 bs
    else if ltb b 224
    then decode 1 (b - 192) bs
    else if ltb b 240
    then decode 2 (b - 224) bs
    else decode 3 (b - 240) bs
decode (suc zero) v (b ∷ bs) = (v * 64 + (b - 128)) ∷ decode zero 0 bs
decode (suc (suc n)) v (b ∷ bs) = decode (suc n) (v * 64 + (b - 128)) bs

unfoldable pub truncate_utf8 : Text → ℕ → Text
truncate_utf8 s max_bytes =
    if leb (length (encode s)) max_bytes then s else decode zero 0 (take max_bytes (encode s))

-- A code point that is no surrogate
abbrev pub IsChar : ℕ → Type 0
IsChar c = (c < 1114112) × ((c < 55296) ⊎ (57343 < c))

abbrev width : ℕ → ℕ
width c = length (encode_char c)

-- As many characters as have room
fit : ℕ → Text → Text
fit n [] = []
fit n (c ∷ s) = let rest = fit (n - width c) s in if leb (width c) n then c ∷ rest else []

decode-encode_char :
    (c : ℕ) (bs : List ℕ) → IsChar c → decode zero 0 (encode_char c ++ bs) ≡ c ∷ decode zero 0 bs
unfolding encode_char decode
decode-encode_char c bs h = ground arith

decode_cut : (c n : ℕ) → IsChar c → n < width c → decode zero 0 (take n (encode_char c)) ≡ []
unfolding encode_char decode
decode_cut c zero h k = refl
decode_cut c (suc zero) h k = ground arith
decode_cut c (suc (suc zero)) h k = ground arith
decode_cut c (suc (suc (suc zero))) h k = ground arith
decode_cut c (suc (suc (suc (suc n)))) h k = absurd (ground arith)

decode-take : (s : Text) (n : ℕ) → All IsChar s → decode zero 0 (take n (encode s)) ≡ fit n s
unfolding encode fit
decode-take [] zero h = unfold decode in refl
decode-take [] (suc n) h = unfold decode in refl
decode-take (c ∷ s) n h = elim (Bool-cases (leb (width c) n)) [
  | inl e ↦ rw e (
      ap (decode zero 0) (take-append_beyond (encode_char c) (encode s) n (ground arith))
      ∙ decode-encode_char c (take (n - width c) (encode s)) h.0
      ∙ ap (λ l. c ∷ l) (decode-take s (n - width c) h.1))
  | inr e ↦ rw e (
      ap (decode zero 0) (take-append_within (encode_char c) (encode s) n (ground arith))
      ∙ decode_cut c n h.0 (ground arith))
]

take-length : (s : Text) → take (length s) s ≡ s
take-length [] = refl
take-length (c ∷ s) = ap (λ l. c ∷ l) (take-length s)

-- What is cut off of a text: it is so many characters of it, within the bytes, and it is the whole
-- text or one character more would be too long.
pub record IsLongestPrefix (n : ℕ) (s t : Text) : Type 0 where
  pub kept : ℕ
  pub prefix : t ≡ take kept s
  pub within : length (encode t) ≤ n
  pub longest : (t ≡ s) ⊎ (n < length (encode (take (suc kept) s)))

fit-IsLongestPrefix : (s : Text) (n : ℕ) → IsLongestPrefix n s (fit n s)
unfolding encode fit
fit-IsLongestPrefix [] n = record {
  kept = 0;
  prefix = refl;
  within = omega arith;
  longest = inl refl;
}
fit-IsLongestPrefix (c ∷ s) n = elim (Bool-cases (leb (width c) n)) [
  | inr e ↦ rw e (record {
    kept = 0;
    prefix = refl;
    within = omega arith;
    longest = inr (ground (arith, length-append (encode_char c) []));
  })
  | inl e ↦
      let later = fit-IsLongestPrefix s (n - width c) in
      let rest = fit (n - width c) s in
      let short = later.within in
      let room : width c ≤ n = ground arith in
      rw e (record {
        kept = suc later.kept;
        prefix = ap (λ l. c ∷ l) later.prefix;
        within = omega (arith, length-append (encode_char c) (encode rest));
        longest = elim later.longest [
          | inl whole ↦ inl (ap (λ l. c ∷ l) whole)
          | inr more ↦
              inr (omega (arith, length-append (encode_char c) (encode (take (suc later.kept) s))))
        ];
      })
]

-- The truncation of a text to so many bytes is its longest start whose encoding has at most that many:
-- no character is split, and none that has room is dropped.
pub truncate_utf8-IsLongestPrefix :
    (s : Text) (max_bytes : ℕ)
    → All IsChar s
    → IsLongestPrefix max_bytes s (truncate_utf8 s max_bytes)
unfolding truncate_utf8
truncate_utf8-IsLongestPrefix s n h = elim (Bool-cases (leb (length (encode s)) n)) [
  | inl e ↦ rw e (record {
    kept = length s;
    prefix = sym (take-length s);
    within = ground arith;
    longest = inl refl;
  })
  | inr e ↦ rw (e, decode-take s n h) (fit-IsLongestPrefix s n)
]
