-- ===== src/AgentQueue/Order.antt =====
-- The identifiers of the rows go up, and the first undelivered row is the one that an
-- acknowledgement of its identifier takes away.
use mirageby_ai.Common.{
  ℕ, ◌+◌, ◌≤◌, ◌<◌, ◌≡◌, refl, ap, Bool, true, inl, inr, List, [], ◌∷◌, ◌++◌, arith, some, Option,
  String, select, update, ◌==◌, Bool-cases, none,
}
use mirageby_ai.AgentQueue.{
  Row, Queue, is_pending, is_in, acknowledged, ack, vacuum_acked, dead_letter_rows,
}

module _ {B : Type 0} where
  -- lo < id of the first < ... < id of the last ≤ hi
  abbrev pub Between : ℕ → List (Row B) → ℕ → Type 0
  Between lo [] hi = lo ≤ hi
  Between lo (x ∷ xs) hi = (lo < x.id) × Between x.id xs hi

  abbrev pub IsOrdered : Queue B → Type 0
  IsOrdered q = Between 0 q.rows q.last_id

  Between-le : (lo : ℕ) (xs : List (Row B)) (hi : ℕ) → Between lo xs hi → lo ≤ hi
  Between-le lo [] hi h = h
  Between-le lo (x ∷ xs) hi h = omega (arith, h.0, Between-le x.id xs hi h.1)

  pub Between-append :
      (lo : ℕ) (xs : List (Row B)) (hi : ℕ) (x : Row B)
      → Between lo xs hi
      → x.id ≡ hi + 1
      → Between lo (xs ++ x ∷ []) (hi + 1)
  Between-append lo [] hi x h e = omega arith
  Between-append lo (y ∷ xs) hi x h e = (h.0, Between-append y.id xs hi x h.1 e)

  pub Between-update :
      (p : Row B → Bool) (f : Row B → Row B) (lo : ℕ) (xs : List (Row B)) (hi : ℕ)
      → ((x : Row B) → (f x).id ≡ x.id)
      → Between lo xs hi
      → Between lo (update p f xs) hi
  Between-update p f lo [] hi keeps h = h
  Between-update p f lo (x ∷ xs) hi keeps h =
      ground (arith, keeps x, Between-update p f x.id xs hi keeps h.1)

  Between-lower :
      (lo k : ℕ) (xs : List (Row B)) (hi : ℕ) → lo ≤ k → Between k xs hi → Between lo xs hi
  Between-lower lo k [] hi le h = omega arith
  Between-lower lo k (x ∷ xs) hi le h = (omega (arith, h.0), h.1)

  Between-select :
      (p : Row B → Bool) (lo : ℕ) (xs : List (Row B)) (hi : ℕ)
      → Between lo xs hi
      → Between lo (select p xs) hi
  Between-select p lo [] hi h = h
  Between-select p lo (x ∷ xs) hi h = elim (Bool-cases (p x)) [
    | inl kept ↦ rw kept (h.0, Between-select p x.id xs hi h.1)
    | inr gone ↦ rw gone (
        Between-lower lo x.id (select p xs) hi (omega (arith, h.0))
          (Between-select p x.id xs hi h.1))
  ]

  -- Rows above an identifier are not touched by its acknowledgement.
  update_above :
      (k lo : ℕ) (f : Row B → Row B) (xs : List (Row B)) (hi : ℕ)
      → k ≤ lo
      → Between lo xs hi
      → update (is_in (k ∷ [])) f xs ≡ xs
  update_above k lo f [] hi le h = refl
  update_above k lo f (x ∷ xs) hi le h =
      ground (arith, h.0, update_above k x.id f xs hi (omega (arith, h.0)) h.1)

  -- Acknowledging the first undelivered row leaves the others, in their order.
  pub select-ack_first :
      (lo : ℕ) (xs : List (Row B)) (hi : ℕ) (x : Row B) (rest : List (Row B))
      → Between lo xs hi
      → select is_pending xs ≡ x ∷ rest
      → select is_pending (update (is_in (x.id ∷ [])) (λ y. record y { status = acknowledged }) xs)
        ≡ rest
  select-ack_first lo [] hi x rest h e = cc
  select-ack_first lo (y ∷ xs) hi x rest h e = elim (Bool-cases (is_pending y)) [
    | inl first ↦
        let same : y ≡ x = ground arith in
        let others : select is_pending xs ≡ rest = ground arith in
        let untouched =
          update_above x.id y.id (λ z. record z { status = acknowledged }) xs hi
            (omega (arith, ap (λ (z : Row B). z.id) same)) h.1 in
        let hit : (x.id == y.id) ≡ true = ground arith in rw (hit, untouched) others
    | inr done ↦
        let ih = select-ack_first y.id xs hi x rest h.1 (ground arith) in
        elim (Bool-cases (x.id == y.id)) [ inl hit ↦ rw hit ih | inr miss ↦ rw (miss, done) ih ]
  ]

module _ {B : Type 0} where
  -- Acknowledging, burying, retrying, compacting keep the order.
  pub ack-IsOrdered : (ids : List ℕ) (q : Queue B) → IsOrdered q → IsOrdered (ack ids q)
  unfolding ack
  ack-IsOrdered ids q h = Between-update (is_in ids) _ 0 q.rows q.last_id (λ x. refl) h

  pub dead_letter_rows-IsOrdered :
      (ids : List ℕ) (error : Option String) (q : Queue B)
      → IsOrdered q
      → IsOrdered (dead_letter_rows ids error q)
  unfolding dead_letter_rows
  dead_letter_rows-IsOrdered ids none q h =
      Between-update (is_in ids) _ 0 q.rows q.last_id (λ x. refl) h
  dead_letter_rows-IsOrdered ids (some e) q h =
      Between-update (is_in ids) _ 0 q.rows q.last_id (λ x. refl) h

  pub vacuum_acked-IsOrdered : (q : Queue B) → IsOrdered q → IsOrdered (vacuum_acked q)
  unfolding vacuum_acked
  vacuum_acked-IsOrdered q h = Between-select _ 0 q.rows q.last_id h
