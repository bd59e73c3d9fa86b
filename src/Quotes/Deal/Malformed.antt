-- ===== src/Quotes/Deal/Malformed.antt =====
-- A tick with too few fields.
use vs2017code.Base.{
  ℕ, zero, suc, ◌≤◌, ◌≡◌, refl, ap, ◌∙◌, arith, Bytes, List, [], ◌∷◌, none, some, length, get_elem?,
}
use vs2017code.Quotes.Ticks.{Ticks, take_tick}
use vs2017code.Quotes.Deal.{
  Numbers, undefined, Dealer, strtok_all, tick_fields, read_tick, deal_taken, deal_round,
}

get_elem?_beyond : {A : Type 0} (xs : List A) (i : ℕ) → length xs ≤ i → get_elem? xs i ≡ none
get_elem?_beyond [] i h = refl
get_elem?_beyond (x ∷ xs) zero h = absurd (omega arith)
get_elem?_beyond (x ∷ xs) (suc i) h = get_elem?_beyond xs i (omega arith)

tick_fields_short : (text : Bytes) → length (strtok_all text) ≤ 10 → tick_fields text ≡ none
unfolding tick_fields
tick_fields_short text h =
    let texts : List Bytes = strtok_all text in
    let last : get_elem? texts 10 ≡ none = get_elem?_beyond texts 10 h in ground (arith, last)

module _ (n : Numbers) where
  -- A round that takes a tick of at most ten fields reads behind the end of `strVec`.
  pub deal_round_short :
      (ticks left : Ticks) (text : Bytes) (dealer : Dealer n)
      → take_tick ticks ≡ (some text, left)
      → length (strtok_all text) ≤ 10
      → deal_round n ticks dealer ≡ undefined
  unfolding deal_round
  deal_round_short ticks left text dealer taken short =
      ap (λ r. deal_taken n r dealer) taken
      ∙ rw (deal_taken, read_tick, tick_fields_short text short) refl
