-- ===== src/Atls/Ea/Wire/Loop.antt =====
-- The parsing loops: they end, they read back what was written item by item, and what they read
-- is what an encoder of the items writes.
use session_bound_agent_iden.Common.{
  ℕ, zero, suc, ◌≤◌, ◌<◌, Option, none, some, List, [], ◌∷◌, ◌++◌, ◌≡◌, ◌≢◌, inl, inr, refl, ap,
  ◌∙◌, All, length, Result, ok, err, Result-cases, Option-cases, arith,
}
use session_bound_agent_iden.GoString.{Bytes}
use session_bound_agent_iden.Atls.Ea.Wire.{EaErr, prepend, parse_all, parse_items, fuel_given}
use session_bound_agent_iden.Atls.Ea.Wire.Numbers.{AreBytes}

-- The encodings of the items, one behind the other.
unfoldable pub put_items : {A : Type 0} → (A → Bytes) → List A → Bytes
put_items put [] = []
put_items put (x ∷ xs) = put x ++ put_items put xs

-- A round that takes an item takes something.
abbrev pub Shortens : {A : Type 0} → (Bytes → Result EaErr (A × Bytes)) → Type 0
Shortens {A} item =
    (b : Bytes) (x : A) (rest : Bytes) → item b ≡ ok (x, rest) → length rest < length b

-- Off the front of any bytes, the item is read as it was written.
abbrev pub Reads : {A : Type 0} → (Bytes → Result EaErr (A × Bytes)) → (A → Bytes) → A → Type 0
Reads item put x = (rest : Bytes) → item (put x ++ rest) ≡ ok (x, rest)

-- What is read is what would be written, and the item is well-formed.
abbrev pub Rewrites :
    {A : Type 0} → (Bytes → Result EaErr (A × Bytes)) → (A → Bytes) → (A → Type 0) → Type 0
Rewrites {A} item put Fits =
    (b : Bytes) (x : A) (rest : Bytes)
    → AreBytes b
    → item b ≡ ok (x, rest)
    → (b ≡ put x ++ rest) × AreBytes rest × Fits x

prepend-ne-none :
    {A : Type 0} (x : A) (o : Option (Result EaErr (List A))) → o ≢ none → prepend x o ≢ none
unfolding prepend
prepend-ne-none x none h e = h refl
prepend-ne-none x (some (err r)) h e = cc
prepend-ne-none x (some (ok xs)) h e = cc

prepend_ok :
    {A : Type 0} (x : A) (o : Option (Result EaErr (List A))) (xs : List A)
    → prepend x o ≡ some (ok xs)
    → (ys : List A) × (o ≡ some (ok ys)) × (xs ≡ x ∷ ys)
unfolding prepend
prepend_ok x none xs e = cc
prepend_ok x (some (err r)) xs e = cc
prepend_ok x (some (ok ys)) xs e = (ys, refl, cc)

module _ {A : Type 0} (item : Bytes → Result EaErr (A × Bytes)) where
  -- The length of the input is enough fuel.
  pub parse_all-ne-none :
      (fuel : ℕ) (b : Bytes) → Shortens item → length b ≤ fuel → parse_all item fuel b ≢ none
  unfolding parse_all
  parse_all-ne-none fuel [] s h = λ e. cc
  parse_all-ne-none zero (x ∷ b) s h = absurd (omega arith)
  parse_all-ne-none (suc fuel) (x ∷ b) s h = elim (Result-cases (item (x ∷ b))) [
    | inl ((y, rest), found) ↦
        rw (found, parse_all)
          (prepend-ne-none y (parse_all item fuel rest)
            (parse_all-ne-none fuel rest s (omega (arith, s (x ∷ b) y rest found))))
    | inr (r, bad) ↦ rw (bad, parse_all) (λ e. cc)
  ]

  parse_all_step :
      (fuel : ℕ) (b : Bytes) (x : A) (rest : Bytes)
      → item b ≡ ok (x, rest)
      → length rest < length b
      → parse_all item (suc fuel) b ≡ prepend x (parse_all item fuel rest)
  unfolding parse_all
  parse_all_step fuel [] x rest found short = absurd (omega arith)
  parse_all_step fuel (y ∷ b) x rest found short = rw (found, parse_all) refl

  parse_all-put_items :
      (put : A → Bytes) (fuel : ℕ) (xs : List A)
      → Shortens item
      → All (Reads item put) xs
      → length (put_items put xs) ≤ fuel
      → parse_all item fuel (put_items put xs) ≡ some (ok xs)
  unfolding parse_all put_items prepend
  parse_all-put_items put fuel [] s r h = refl
  parse_all-put_items put zero (x ∷ xs) s r h =
      let found = r.0 (put_items put xs) in
      absurd (omega (arith, s (put x ++ put_items put xs) x (put_items put xs) found))
  parse_all-put_items put (suc fuel) (x ∷ xs) s r h =
      let found = r.0 (put_items put xs) in
      let short = s (put x ++ put_items put xs) x (put_items put xs) found in
      parse_all_step fuel (put x ++ put_items put xs) x (put_items put xs) found short
      ∙ ap (prepend x) (parse_all-put_items put fuel xs s r.1 (omega arith))

  -- A list of items is read as it was written.
  pub parse_items-put_items :
      (put : A → Bytes) (xs : List A)
      → Shortens item
      → All (Reads item put) xs
      → parse_items item (put_items put xs) ≡ ok xs
  unfolding parse_items fuel_given
  parse_items-put_items put xs s r =
      ap fuel_given (parse_all-put_items put (length (put_items put xs)) xs s r (omega arith))

  parse_all_rewrites :
      (put : A → Bytes) (Fits : A → Type 0) (fuel : ℕ) (b : Bytes) (xs : List A)
      → Rewrites item put Fits
      → AreBytes b
      → parse_all item fuel b ≡ some (ok xs)
      → (b ≡ put_items put xs) × All Fits xs
  unfolding parse_all put_items
  parse_all_rewrites put Fits fuel [] [] w h e = (refl, tt)
  parse_all_rewrites put Fits fuel [] (x ∷ xs) w h e = cc
  parse_all_rewrites put Fits zero (y ∷ b) xs w h e = cc
  parse_all_rewrites put Fits (suc fuel) (y ∷ b) xs w h e = elim (Result-cases (item (y ∷ b))) [
    | inr (r, bad) ↦ absurd (ground arith)
    | inl ((x, rest), found) ↦
        let (same, bytes, fits) = w (y ∷ b) x rest h found in
        let (ys, tail, parts) =
          prepend_ok x (parse_all item fuel rest) xs (rw (found, parse_all) at e) in
        let (again, others) = parse_all_rewrites put Fits fuel rest ys w bytes tail in
        rw parts (same ∙ ap (λ r. put x ++ r) again, (fits, others))
  ]

  -- What a loop has read is the encoding of its items.
  pub parse_items_rewrites :
      (put : A → Bytes) (Fits : A → Type 0) (b : Bytes) (xs : List A)
      → Rewrites item put Fits
      → AreBytes b
      → parse_items item b ≡ ok xs
      → (b ≡ put_items put xs) × All Fits xs
  unfolding parse_items fuel_given
  parse_items_rewrites put Fits b xs w h e = elim (Option-cases (parse_all item (length b) b)) [
    | inl out ↦ absurd (ground arith)
    | inr (r, run) ↦ parse_all_rewrites put Fits (length b) b xs w h (ground arith)
  ]
