-- ===== src/Ai/Budget.antt =====
-- `BudgetLedger`. Amounts are natural numbers of the smallest unit of the ledger's Decimal.
use mirageby_ai.Common.{
  ℕ, ◌+◌, ◌≤◌, ◌<◌, eq_iff, ap, String, Bool, true, ◌&&◌, ◌≡◌, refl, List, [], ◌∷◌, ◌++◌, arith,
  ltb, leb, ◌==◌, str_eq, if◌then◌else◌, count, count-append, inl, inr, Bool-cases,
}

pub record Moment : Type 0 where
  pub year : ℕ
  pub month : ℕ
  pub day : ℕ
  pub second_of_day : ℕ

pub record Charge : Type 0 where
  pub at : Moment
  pub case_id : String
  pub cost_gbp : ℕ

pub record BudgetLedger : Type 0 where
  pub daily_limit_gbp : ℕ
  pub monthly_limit_gbp : ℕ
  pub per_case_limit : ℕ
  pub entries : List Charge

abbrev pub same_month : Moment → Moment → Bool
same_month a b = (a.year == b.year) && (a.month == b.month)

-- at.date() == now.date()
abbrev pub same_date : Moment → Moment → Bool
same_date a b = same_month a b && (a.day == b.day)

-- The sum of the costs of the entries that pass a test.
abbrev pub spent : (Charge → Bool) → List Charge → ℕ
spent p [] = 0
spent p (e ∷ es) = (if p e then e.cost_gbp else 0) + spent p es

abbrev pub on_date : Moment → Charge → Bool
on_date now e = same_date e.at now

abbrev pub in_month : Moment → Charge → Bool
in_month now e = same_month e.at now

abbrev pub for_case : String → Charge → Bool
for_case k e = str_eq e.case_id k

unfoldable pub allow : String → ℕ → Moment → BudgetLedger → Bool
allow case_id cost now b =
    ltb (count (for_case case_id) b.entries) b.per_case_limit
    && (leb (spent (on_date now) b.entries + cost) b.daily_limit_gbp
        && leb (spent (in_month now) b.entries + cost) b.monthly_limit_gbp)

pub record_cost : String → ℕ → Moment → BudgetLedger → BudgetLedger
record_cost case_id cost now b = record b {
  entries = b.entries ++ record { at = now; case_id = case_id; cost_gbp = cost } ∷ [];
}

-- No day, no month and no case is over its limit.
pub record IsWithin (b : BudgetLedger) : Type 0 where
  pub daily : (now : Moment) → spent (on_date now) b.entries ≤ b.daily_limit_gbp
  pub monthly : (now : Moment) → spent (in_month now) b.entries ≤ b.monthly_limit_gbp
  pub per_case : (case_id : String) → count (for_case case_id) b.entries ≤ b.per_case_limit

spent-append :
    (p : Charge → Bool) (xs : List Charge) (e : Charge)
    → spent p (xs ++ e ∷ []) ≡ spent p xs + (if p e then e.cost_gbp else 0)
spent-append p [] e = omega arith
spent-append p (x ∷ xs) e = omega (arith, spent-append p xs e)

-- Two moments on one date are on the date of the same moments.
same_date_swap : (a b : Moment) (e : Charge) → same_date b a ≡ true → on_date a e ≡ on_date b e
same_date_swap a b e h = ground arith

same_month_swap : (a b : Moment) (e : Charge) → same_month b a ≡ true → in_month a e ≡ in_month b e
same_month_swap a b e h = ground arith

spent-agree :
    (p q : Charge → Bool) (xs : List Charge) → ((e : Charge) → p e ≡ q e) → spent p xs ≡ spent q xs
spent-agree p q [] h = refl
spent-agree p q (x ∷ xs) h = rw (h x, spent-agree p q xs h) refl

daily-record :
    (b : BudgetLedger) (k : String) (cost : ℕ) (at now : Moment)
    → spent (on_date at) b.entries + cost ≤ b.daily_limit_gbp
    → spent (on_date now) b.entries ≤ b.daily_limit_gbp
    → spent (on_date now) (b.entries ++ record { at = at; case_id = k; cost_gbp = cost } ∷ [])
      ≤ b.daily_limit_gbp
daily-record b k cost at now fits before =
    let e : Charge = record { at = at; case_id = k; cost_gbp = cost } in
    let sum = spent-append (on_date now) b.entries e in
    elim (Bool-cases (same_date at now)) [
      | inr other ↦ ground (arith, sum)
      | inl same ↦ ground (
        arith,
        sum,
        spent-agree (on_date now) (on_date at) b.entries λ x. same_date_swap now at x same,
      )
    ]

monthly-record :
    (b : BudgetLedger) (k : String) (cost : ℕ) (at now : Moment)
    → spent (in_month at) b.entries + cost ≤ b.monthly_limit_gbp
    → spent (in_month now) b.entries ≤ b.monthly_limit_gbp
    → spent (in_month now) (b.entries ++ record { at = at; case_id = k; cost_gbp = cost } ∷ [])
      ≤ b.monthly_limit_gbp
monthly-record b k cost at now fits before =
    let e : Charge = record { at = at; case_id = k; cost_gbp = cost } in
    let sum = spent-append (in_month now) b.entries e in
    elim (Bool-cases (same_month at now)) [
      | inr other ↦ ground (arith, sum)
      | inl same ↦ ground (
        arith,
        sum,
        spent-agree (in_month now) (in_month at) b.entries λ x. same_month_swap now at x same,
      )
    ]

per_case-record :
    (b : BudgetLedger) (k other : String) (cost : ℕ) (at : Moment)
    → count (for_case k) b.entries < b.per_case_limit
    → count (for_case other) b.entries ≤ b.per_case_limit
    → count (for_case other) (b.entries ++ record { at = at; case_id = k; cost_gbp = cost } ∷ [])
      ≤ b.per_case_limit
per_case-record b k other cost at fits before =
    let e : Charge = record { at = at; case_id = k; cost_gbp = cost } in
    let sum = count-append (for_case other) b.entries (e ∷ []) in
    elim (Bool-cases (str_eq k other)) [
      | inr apart ↦ ground (arith, sum)
      | inl same ↦
          let count_same : count (for_case k) b.entries ≡ count (for_case other) b.entries =
            ap (λ s. count (for_case s) b.entries) ((eq_iff k other).0 same) in
          ground (arith, sum, count_same)
    ]

allow-fits :
    (k : String) (cost : ℕ) (now : Moment) (b : BudgetLedger)
    → allow k cost now b ≡ true
    → (count (for_case k) b.entries < b.per_case_limit)
      × (spent (on_date now) b.entries + cost ≤ b.daily_limit_gbp)
      × (spent (in_month now) b.entries + cost ≤ b.monthly_limit_gbp)
unfolding allow
allow-fits k cost now b h = ground arith

-- A cost that the ledger has allowed, for a case at a moment, and that is then recorded leaves
-- every day, every month and every case within its limit, if they were so before.
pub record_cost-IsWithin :
    (k : String) (cost : ℕ) (now : Moment) (b : BudgetLedger)
    → allow k cost now b ≡ true
    → IsWithin b
    → IsWithin (record_cost k cost now b)
unfolding record_cost
record_cost-IsWithin k cost now b allowed h =
    let (fits_case, fits_day, fits_month) = allow-fits k cost now b allowed in
    record {
      daily = λ t. daily-record b k cost now t fits_day (h.daily t);
      monthly = λ t. monthly-record b k cost now t fits_month (h.monthly t);
      per_case = λ other. per_case-record b k other cost now fits_case (h.per_case other);
    }
