-- ===== src/Database/Tables.antt =====
-- A table as a list of rows whose ids fall along it: UPDATE, and a row by its id.
use taxi_lab.Base.{
  subst, ℤ, pos, ◌<ℤ◌, ◌≤ℤ◌, int_eq, int_eq_iff, int_eq_of_lt, ℕ, ◌+◌, ◌≡◌, refl, ◌∙◌, ap, Bool,
  true, false, ◌&&◌, Option, none, some, List, [], ◌∷◌, any, select, if◌then◌else◌, arith,
  Bool-cases, inl, inr,
}
use mathlib.Core.Option

module _ {A : Type 0} where
  abbrev pub All : (A → Type 0) → List A → Type 0
  All P [] = Unit {0}
  All P (r ∷ rows) = P r × All P rows

  -- UPDATE: every row that is chosen is changed.
  unfoldable pub update_where : (A → Bool) → (A → A) → List A → List A
  update_where chosen change [] = []
  update_where chosen change (r ∷ rows) =
      (if chosen r then change r else r) ∷ update_where chosen change rows

  unfoldable pub count_where : (A → Bool) → List A → ℕ
  count_where p [] = 0
  count_where p (r ∷ rows) = (if p r then 1 else 0) + count_where p rows

  abbrev is_cons : List A → Bool
  is_cons [] = false
  is_cons (r ∷ rows) = true

  any-select : (p : A → Bool) (rows : List A) → any p rows ≡ is_cons (select p rows)
  any-select p [] = refl
  any-select p (r ∷ rows) = ground (arith, any-select p rows)

  pub update_where-none :
      (chosen : A → Bool) (change : A → A) (rows : List A)
      → any chosen rows ≡ false
      → update_where chosen change rows ≡ rows
  unfolding update_where
  update_where-none chosen change [] h = refl
  update_where-none chosen change (r ∷ rows) h =
      ground (arith, update_where-none chosen change rows)

  -- A condition that does not name the row.
  pub select-and :
      (p : A → Bool) (b : Bool) (rows : List A)
      → select (λ r. p r && b) rows ≡ (if b then select p rows else [])
  select-and p b [] = ground arith
  select-and p b (r ∷ rows) = ground (arith, select-and p b rows)

  pub update_where-and :
      (p : A → Bool) (b : Bool) (change : A → A) (rows : List A)
      → update_where (λ r. p r && b) change rows ≡ (if b then update_where p change rows else rows)
  unfolding update_where
  update_where-and p b change [] = ground arith
  update_where-and p b change (r ∷ rows) = ground (arith, update_where-and p b change rows)

  -- What `p` says of the row with an id.
  abbrev pub row_test : (A → Bool) → Option A → Bool
  row_test p none = false
  row_test p (some r) = p r

  abbrev pub row_list : (A → Bool) → Option A → List A
  row_list p none = []
  row_list p (some r) = if p r then r ∷ [] else []

module _ {A : Type 0} (id : A → ℤ) where
  -- The ids are positive and fall along the table, from below a bound.
  abbrev pub Falls : ℤ → List A → Type 0
  Falls bound [] = Unit {0}
  Falls bound (r ∷ rows) = (pos 0 <ℤ id r) × (id r <ℤ bound) × Falls (id r) rows

  pub Falls-mono : (b c : ℤ) (rows : List A) → b ≤ℤ c → Falls b rows → Falls c rows
  Falls-mono b c [] le f = tt
  Falls-mono b c (r ∷ rows) le (p, q, f) = (p, omega arith, f)

  unfoldable pub find_row : ℤ → List A → Option A
  find_row j [] = none
  find_row j (r ∷ rows) = if int_eq (id r) j then some r else find_row j rows

  pub find_row_above : (j b : ℤ) (rows : List A) → Falls b rows → b ≤ℤ j → find_row j rows ≡ none
  unfolding find_row
  find_row_above j b [] f le = refl
  find_row_above j b (r ∷ rows) (p, q, f) le =
      let lt : id r <ℤ j = omega arith in
      rw (int_eq_of_lt (id r) j lt) (find_row_above j (id r) rows f (omega arith))

  select_above :
      (p : A → Bool) (j b : ℤ) (rows : List A)
      → Falls b rows
      → b ≤ℤ j
      → select (λ r. int_eq (id r) j && p r) rows ≡ []
  select_above p j b [] f le = refl
  select_above p j b (r ∷ rows) (_, q, f) le =
      let lt : id r <ℤ j = omega arith in
      rw (int_eq_of_lt (id r) j lt) (select_above p j (id r) rows f (omega arith))

  -- WHERE id = j AND p: at most the row with that id.
  pub select-find_row :
      (p : A → Bool) (j b : ℤ) (rows : List A)
      → Falls b rows
      → select (λ r. int_eq (id r) j && p r) rows ≡ row_list p (find_row j rows)
  unfolding find_row
  select-find_row p j b [] f = refl
  select-find_row p j b (r ∷ rows) (_, q, f) = elim (Bool-cases (int_eq (id r) j)) [
    | inl e ↦
        let same : id r ≡ j = (int_eq_iff (id r) j).0 e in
        rw (e, select_above p j (id r) rows f (rw same (omega arith)))
    | inr e ↦ rw e (select-find_row p j (id r) rows f)
  ]

  pub any-find_row :
      (p : A → Bool) (j b : ℤ) (rows : List A)
      → Falls b rows
      → any (λ r. int_eq (id r) j && p r) rows ≡ row_test p (find_row j rows)
  any-find_row p j b rows f =
      any-select (λ r. int_eq (id r) j && p r) rows
      ∙ ap is_cons (select-find_row p j b rows f)
      ∙ row_list-is_cons (find_row j rows)
    where
      row_list-is_cons : (o : Option A) → is_cons (row_list p o) ≡ row_test p o
      row_list-is_cons none = refl
      row_list-is_cons (some r) = ground arith

  -- A change that keeps the ids keeps the order, and changes the row with an id by itself.
  pub Falls-update_where :
      (chosen : A → Bool) (change : A → A) (b : ℤ) (rows : List A)
      → ((r : A) → id (change r) ≡ id r)
      → Falls b rows
      → Falls b (update_where chosen change rows)
  unfolding update_where
  Falls-update_where chosen change b [] keep f = tt
  Falls-update_where chosen change b (r ∷ rows) keep (p, q, f) =
      let rest = Falls-update_where chosen change (id r) rows keep f in
      elim (Bool-cases (chosen r)) [
        | inl e ↦ rw (e, keep r) (p, q, rest)
        | inr e ↦ rw e (p, q, rest)
      ]

  pub find_row-update_where :
      (chosen : A → Bool) (change : A → A) (j : ℤ) (rows : List A)
      → ((r : A) → id (change r) ≡ id r)
      → find_row j (update_where chosen change rows)
        ≡ Option.map (λ r. if chosen r then change r else r) (find_row j rows)
  unfolding update_where find_row
  find_row-update_where chosen change j [] keep = refl
  find_row-update_where chosen change j (r ∷ rows) keep =
      ground (arith, keep r, find_row-update_where chosen change j rows keep)

  -- The row that is found has the id that was asked for.
  pub find_row-id : (j : ℤ) (rows : List A) {r : A} → find_row j rows ≡ some r → id r ≡ j
  unfolding find_row
  find_row-id j [] h = cc
  find_row-id j (x ∷ rows) {r} h =
      ground (arith, find_row-id j rows {r = r}, (int_eq_iff (id x) j).0)

  -- What holds of every row holds of the row that is found.
  pub find_row-All :
      (P : A → Type 0) (j : ℤ) (rows : List A) {r : A} → All P rows → find_row j rows ≡ some r → P r
  unfolding find_row
  find_row-All P j [] a h = cc
  find_row-All P j (x ∷ rows) {r} (p, a) h = elim (Bool-cases (int_eq (id x) j)) [
    | inl e ↦ let same : x ≡ r = ground arith in subst P same p
    | inr e ↦ let below : find_row j rows ≡ some r = ground arith in find_row-All P j rows a below
  ]

  any_above :
      (p : A → Bool) (j b : ℤ) (rows : List A)
      → Falls b rows
      → b ≤ℤ j
      → any (λ r. int_eq (id r) j && p r) rows ≡ false
  any_above p j b rows f le =
      any-find_row p j b rows f ∙ ap (row_test p) (find_row_above j b rows f le)

  -- An UPDATE of the row with an id moves a count by that row alone.
  pub count_where-update_where :
      (q p : A → Bool) (change : A → A) (j b : ℤ) (rows : List A) (row : A)
      → Falls b rows
      → find_row j rows ≡ some row
      → p row ≡ true
      → count_where q (update_where (λ r. int_eq (id r) j && p r) change rows)
          + (if q row then 1 else 0)
        ≡ count_where q rows + (if q (change row) then 1 else 0)
  unfolding find_row count_where update_where
  count_where-update_where q p change j b [] row f h e = cc
  count_where-update_where q p change j b (x ∷ rows) row (_, lt, f) h e =
      elim (Bool-cases (int_eq (id x) j)) [
        | inl k ↦
            let same : x ≡ row = ground arith in
            let below : id x ≤ℤ j = rw ((int_eq_iff (id x) j).0 k) (omega arith) in
            let rest = update_where-none _ change rows (any_above p j (id x) rows f below) in
            ground (arith, rest)
        | inr k ↦
            ground (arith, count_where-update_where q p change j (id x) rows row f (ground arith) e)
      ]

  -- No row has an id from the bound on.
  pub any-id_above :
      (j b : ℤ) (rows : List A) → Falls b rows → b ≤ℤ j → any (λ r. int_eq (id r) j) rows ≡ false
  any-id_above j b [] f le = refl
  any-id_above j b (x ∷ rows) (_, lt, f) le =
      let below : id x <ℤ j = omega arith in
      rw (int_eq_of_lt (id x) j below) (any-id_above j (id x) rows f (omega arith))
