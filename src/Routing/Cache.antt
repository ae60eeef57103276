-- ===== src/Routing/Cache.antt =====
-- The answers of the cache after a target was put in.
use mirageby_ai.Common.{
  ℕ, ◌+◌, ◌≤◌, ◌<◌, String, true, false, ◌≡◌, refl, ap, ◌∙◌, inl, inr, Option, none, some, List, [],
  ◌∷◌, ◌++◌, arith, str_eq, eq_refl, eq_iff, find, Bool-cases,
}
use mirageby_ai.Routing.{CacheEntry, RouteCache, entry_for, without, get, set}

find-without :
    (key : String) (xs : List CacheEntry) (e : CacheEntry)
    → str_eq e.match_key key ≡ true
    → find (entry_for key) (without key xs ++ e ∷ []) ≡ some e
find-without key [] e h = ground arith
find-without key (x ∷ xs) e h = elim (Bool-cases (str_eq x.match_key key)) [
  | inl hit ↦ rw hit (find-without key xs e h)
  | inr miss ↦ ground (arith, miss, find-without key xs e h)
]

find-other :
    (key other : String) (xs : List CacheEntry) (e : CacheEntry)
    → str_eq key other ≡ false
    → str_eq e.match_key other ≡ false
    → find (entry_for other) (without key xs ++ e ∷ []) ≡ find (entry_for other) xs
find-other key other [] e h k = ground arith
find-other key other (x ∷ xs) e h k = elim (Bool-cases (str_eq x.match_key key)) [
  | inl hit ↦
      let same : str_eq x.match_key other ≡ false =
        ap (λ s. str_eq s other) ((eq_iff x.match_key key).0 hit) ∙ h in
      rw (hit, same) (find-other key other xs e h k)
  | inr miss ↦ rw miss (ground (arith, find-other key other xs e h k))
]

-- A target that was put in is the answer until the time to live has passed, and after that there
-- is no answer; for another key the answer at any time is that of before.
pub get-set :
    (key target other : String) (at now : ℕ) (c : RouteCache)
    → ((now ≤ at + c.ttl → (get key now (set key target at c)).0 ≡ some target)
        × (at + c.ttl < now → (get key now (set key target at c)).0 ≡ none)
        × (str_eq key other ≡ false
            → (get other now (set key target at c)).0 ≡ (get other now c).0))
unfolding get set
get-set key target other at now c =
    let e : CacheEntry = record { match_key = key; target = target; cached_at = at } in
    let found = find-without key c.entries e (eq_refl key) in
    (
      (λ h. ground (arith, found)),
      (λ h. ground (arith, found)),
      λ h. elsewhere (find (entry_for other) c.entries) refl (find-other key other c.entries e h h),
    )
  where
    elsewhere :
        (x : Option CacheEntry)
        → find (entry_for other) c.entries ≡ x
        → find (entry_for other) (
            without key c.entries
            ++ record { match_key = key; target = target; cached_at = at } ∷ [])
          ≡ find (entry_for other) c.entries
        → (get other now (set key target at c)).0 ≡ (get other now c).0
    elsewhere none f g = ground (arith, f, g)
    elsewhere (some x) f g = ground (arith, f, g)
