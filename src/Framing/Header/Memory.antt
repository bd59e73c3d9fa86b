-- ===== src/Framing/Header/Memory.antt =====
-- What a `strcpy` into the header leaves in each window of its memory.
use vs2017code.Base.{
  ℕ, zero, suc, ◌+◌, ◌-◌, ◌≤◌, ◌<◌, ◌≡◌, ◌≢◌, refl, sym, ap, ◌∙◌, arith, Bytes, [], ◌∷◌, ◌++◌,
  append_assoc, none, some, length, length-append, length-drop, length-take, take, drop,
  take-append_le, drop-append_le, take-append_length, drop-append_length, All, c_string,
}
use native.Mathlib.Decide.{dec_lt}
use native.Mathlib.Nat.{zero-add}
use vs2017code.Framing.Delimiter.{find}
use vs2017code.Framing.Header.{overwrite, strcpy, field_text}

abbrev pub window : ℕ → ℕ → Bytes → Bytes
window a n memory = take n (drop a memory)

-- No NUL byte.
abbrev pub IsText : Bytes → Type 0
IsText = All (λ c. c ≢ 0)

pub c_string_text : (s : Bytes) → IsText s → c_string s ≡ s
unfolding c_string
c_string_text [] h = refl
c_string_text (c ∷ s) h = ground (arith, c_string_text s h.1)

-- The memory after a copy of a text that fits.
abbrev pub written : ℕ → Bytes → Bytes → Bytes
written offset s memory =
    take offset memory ++ (s ++ 0 ∷ [] ++ drop (offset + length (s ++ 0 ∷ [])) memory)

pub strcpy_text :
    (offset : ℕ) (s memory : Bytes)
    → IsText s
    → offset + length s < length memory
    → strcpy offset s memory ≡ some (written offset s memory)
unfolding strcpy overwrite
strcpy_text offset s memory h l = rw (c_string_text s h) (ground (arith, length-append s (0 ∷ [])))

pub window-append :
    (a n : ℕ) (xs ys : Bytes) → a + n ≤ length xs → window a n (xs ++ ys) ≡ window a n xs
window-append a n xs ys l =
    rw (drop-append_le a xs ys (omega arith))
      (take-append_le n (drop a xs) ys (omega (arith, length-drop a xs)))

pub take-append-drop : (n : ℕ) (xs : Bytes) → take n xs ++ drop n xs ≡ xs
take-append-drop zero xs = refl
take-append-drop (suc n) [] = refl
take-append-drop (suc n) (x ∷ xs) = ap (◌∷◌ x) (take-append-drop n xs)

-- A window below the write keeps its bytes.
pub window_below :
    (a n offset : ℕ) (memory more : Bytes)
    → a + n ≤ offset
    → offset ≤ length memory
    → window a n (take offset memory ++ more) ≡ window a n memory
window_below a n offset memory more l fits =
    let within : a + n ≤ length (take offset memory) = omega (arith, length-take offset memory) in
    window-append a n (take offset memory) more within
    ∙ sym (window-append a n (take offset memory) (drop offset memory) within)
    ∙ ap (window a n) (take-append-drop offset memory)

-- The window that begins at the write shows what was written.
pub window_at :
    (n offset : ℕ) (memory more : Bytes)
    → offset ≤ length memory
    → window offset n (take offset memory ++ more) ≡ take n more
window_at n offset memory more fits =
    let l : length (take offset memory) ≡ offset = omega (arith, length-take offset memory) in
    let e : drop offset (take offset memory ++ more) ≡ more =
      ap (λ k. drop k (take offset memory ++ more)) (sym l)
      ∙ drop-append_length (take offset memory) more in
    ap (take n) e

find_nul : (s more : Bytes) → IsText s → find (0 ∷ []) (s ++ 0 ∷ more) ≡ some (length s)
unfolding find
find_nul [] more h = refl
find_nul (c ∷ s) more h = ground (arith, find_nul s more h.1)

find_no_nul : (s : Bytes) → IsText s → find (0 ∷ []) s ≡ none
unfolding find
find_no_nul [] h = refl
find_no_nul (c ∷ s) h = ground (arith, find_no_nul s h.1)

pub length-pos : (s : Bytes) → 0 < length s → (n : ℕ) × (length s ≡ suc n)
length-pos [] h = absurd (omega arith)
length-pos (c ∷ s) h = (length s, refl)

-- A non-empty text that is terminated within the member is read back.
pub field_text_terminated :
    (s more : Bytes) → IsText s → 0 < length s → field_text (s ++ 0 ∷ more) ≡ s
unfolding field_text
field_text_terminated s more h p =
    let (n, e) = length-pos s p in
    rw (find_nul s more h, e, field_text) (rw (← e) (take-append_length s (0 ∷ more)))

-- A text that fills the member to its last byte is read back, too.
pub field_text_full : (s : Bytes) → IsText s → field_text s ≡ s
unfolding field_text
field_text_full s h = rw (find_no_nul s h, field_text)

take-append_past : (k : ℕ) (xs ys : Bytes) → take (length xs + k) (xs ++ ys) ≡ xs ++ take k ys
take-append_past k [] ys = rw zero-add
take-append_past k (x ∷ xs) ys =
    let e : suc (length xs) + k ≡ suc (length xs + k) = omega arith in
    rw e (ap (◌∷◌ x) (take-append_past k xs ys))

-- Both cases: the member is the first `n` bytes of the text, its NUL and what stands behind.
pub field_text_member :
    (n : ℕ) (s more : Bytes)
    → IsText s
    → 0 < length s
    → length s ≤ n
    → field_text (take n (s ++ 0 ∷ [] ++ more)) ≡ s
field_text_member n s more h p fits = elim (dec_lt (length s) n) [
  | yes shorter ↦
      let e : n ≡ length s + suc (n - length s - 1) = omega arith in
      rw (append_assoc s (0 ∷ []) more, e, take-append_past) (field_text_terminated s _ h p)
  | no full ↦
      let e : n ≡ length s = omega arith in
      rw (append_assoc s (0 ∷ []) more, e, take-append_length s (0 ∷ more)) (field_text_full s h)
]

pub length-written :
    (offset : ℕ) (s memory : Bytes)
    → offset + length s < length memory
    → length (written offset s memory) ≡ length memory
length-written offset s memory l = omega (
  arith,
  length-append (take offset memory) (s ++ 0 ∷ [] ++ drop (offset + length (s ++ 0 ∷ [])) memory),
  length-append (s ++ 0 ∷ []) (drop (offset + length (s ++ 0 ∷ [])) memory),
  length-append s (0 ∷ []),
  length-take offset memory,
  length-drop (offset + length (s ++ 0 ∷ [])) memory,
)
