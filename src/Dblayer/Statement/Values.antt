-- ===== src/Dblayer/Statement/Values.antt =====
-- What the text of a statement says about its values.
use vs2017code.Base.{
  ℕ, ◌≡◌, ◌≢◌, refl, sym, ap, ◌∙◌, arith, Bytes, codes, List, [], ◌∷◌, ◌++◌, append_assoc, All,
}
use vs2017code.Dblayer.Statement.{quoted_values, replace_into}

append_left_cancel : (xs : Bytes) {ys zs : Bytes} → xs ++ ys ≡ xs ++ zs → ys ≡ zs
append_left_cancel [] e = e
append_left_cancel (x ∷ xs) e = append_left_cancel xs (cc)

abbrev quote : ℕ
quote = b'"'

-- Holds no double quote.
abbrev pub IsClean : Bytes → Type 0
IsClean = All (λ c. c ≢ quote)

-- The first double quote ends the first value.
clean_split :
    (v w r t : Bytes) → IsClean v → IsClean w → v ++ quote ∷ r ≡ w ++ quote ∷ t → (v ≡ w) × (r ≡ t)
clean_split [] [] r t hv hw e = (refl, cc)
clean_split [] (d ∷ w) r t hv hw e = absurd (hw.0 (cc))
clean_split (c ∷ v) [] r t hv hw e = absurd (hv.0 (cc))
clean_split (c ∷ v) (d ∷ w) r t hv hw e =
    let ih = clean_split v w r t hv.1 hw.1 (cc) in (cc (ih.0), ih.1)

abbrev closing : Bytes
closing = codes "\" );"

heads_equal : {a c : ℕ} {s t : Bytes} → a ∷ s ≡ c ∷ t → a ≡ c
heads_equal e = cc

blank-ne-comma : ◌≡◌ {A = ℕ} 32 44 → ⊥
blank-ne-comma e = omega arith

one_value :
    (v w w' : Bytes) (ws : List Bytes)
    → IsClean v
    → IsClean w
    → v ++ closing ≡ quoted_values (w ∷ w' ∷ ws) ++ closing
    → ⊥
unfolding quoted_values
one_value v w w' ws hv hw e =
    let e' = e ∙ append_assoc w (codes "\", \"" ++ quoted_values (w' ∷ ws)) closing in
    blank-ne-comma (heads_equal ((clean_split v w _ _ hv hw e').1))

more_values :
    (v w v' w' : Bytes) (vs ws : List Bytes)
    → IsClean v
    → IsClean w
    → quoted_values (v ∷ v' ∷ vs) ++ closing ≡ quoted_values (w ∷ w' ∷ ws) ++ closing
    → (v ≡ w) × (quoted_values (v' ∷ vs) ++ closing ≡ quoted_values (w' ∷ ws) ++ closing)
unfolding quoted_values
more_values v w v' w' vs ws hv hw e =
    let e' =
      sym (append_assoc v (codes "\", \"" ++ quoted_values (v' ∷ vs)) closing)
      ∙ e
      ∙ append_assoc w (codes "\", \"" ++ quoted_values (w' ∷ ws)) closing in
    let split = clean_split v w _ _ hv hw e' in (split.0, cc (split.1))

values_injective :
    (v w : Bytes) (vs ws : List Bytes)
    → All IsClean (v ∷ vs)
    → All IsClean (w ∷ ws)
    → quoted_values (v ∷ vs) ++ closing ≡ quoted_values (w ∷ ws) ++ closing
    → v ∷ vs ≡ w ∷ ws
unfolding quoted_values
values_injective v w [] [] hv hw e = ap (λ x. x ∷ []) (clean_split v w _ _ hv.0 hw.0 e).0
values_injective v w [] (w' ∷ ws) hv hw e = absurd (one_value v w w' ws hv.0 hw.0 e)
values_injective v w (v' ∷ vs) [] hv hw e = absurd (one_value w v v' vs hw.0 hv.0 (sym e))
values_injective v w (v' ∷ vs) (w' ∷ ws) hv hw e =
    let (same, rest) = more_values v w v' w' vs ws hv.0 hw.0 e in
    cc (same, values_injective v' w' vs ws hv.1 hw.1 rest)

-- The text of a REPLACE into a table with at least one value determines the values, when none holds
-- a double quote.
pub replace_into_injective :
    (table v w : Bytes) (vs ws : List Bytes)
    → All IsClean (v ∷ vs)
    → All IsClean (w ∷ ws)
    → replace_into table (v ∷ vs) ≡ replace_into table (w ∷ ws)
    → v ∷ vs ≡ w ∷ ws
unfolding replace_into
replace_into_injective table v w vs ws hv hw e = values_injective v w vs ws hv hw (
    append_left_cancel (codes "` VALUES ( \"")
      (append_left_cancel table (append_left_cancel (codes "REPLACE INTO `") e)))

-- A REPLACE with a value that holds `", "` has the same text as one with two values in its place.
pub replace_into_forged :
    (table v w : Bytes) (vs : List Bytes)
    → replace_into table ((v ++ (codes "\", \"" ++ w)) ∷ vs) ≡ replace_into table (v ∷ w ∷ vs)
unfolding replace_into quoted_values
replace_into_forged table v w [] = refl
replace_into_forged table v w (x ∷ vs) = simp append_assoc
