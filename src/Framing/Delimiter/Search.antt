-- ===== src/Framing/Delimiter/Search.antt =====
-- Where the delimiter is found.
use vs2017code.Base.{
  ℕ, zero, suc, ◌+◌, ◌^◌, ◌≤◌, ◌<◌, ◌≡◌, refl, arith, Bytes, true, false, [], ◌∷◌, ◌++◌, none, some,
  length, Bool-cases, inl, inr, pos, negsuc,
}
use vs2017code.Framing.Delimiter.{deli, starts_with, find, delimiter_position}

pub starts_with-append :
    (needle text more : Bytes)
    → starts_with needle text ≡ true
    → starts_with needle (text ++ more) ≡ true
unfolding starts_with
starts_with-append [] text more h = refl
starts_with-append (c ∷ needle) [] more h = absurd (ground arith)
starts_with-append (c ∷ needle) (d ∷ text) more h =
    ground (arith, starts_with-append needle text more)

starts_with-length :
    (needle text : Bytes) → starts_with needle text ≡ true → length needle ≤ length text
unfolding starts_with
starts_with-length [] text h = omega arith
starts_with-length (c ∷ needle) [] h = absurd (ground arith)
starts_with-length (c ∷ needle) (d ∷ text) h = ground (arith, starts_with-length needle text)

starts_with_short :
    (needle text more : Bytes)
    → length needle ≤ length text
    → starts_with needle text ≡ false
    → starts_with needle (text ++ more) ≡ false
unfolding starts_with
starts_with_short [] text more l h = h
starts_with_short (c ∷ needle) [] more l h = absurd (omega arith)
starts_with_short (c ∷ needle) (d ∷ text) more l h =
    ground (arith, starts_with_short needle text more (omega arith))

-- The needle lies whole within the text.
pub find-length :
    (needle text : Bytes) (p : ℕ) → find needle text ≡ some p → p + length needle ≤ length text
unfolding find
find-length needle [] p h = ground (arith, starts_with-length needle [])
find-length needle (c ∷ text) zero h = ground (arith, starts_with-length needle (c ∷ text))
find-length needle (c ∷ text) (suc p) h = ground (arith, find-length needle text p)

find-append_later :
    (needle : Bytes) (c : ℕ) (text more : Bytes) (p : ℕ)
    → starts_with needle (c ∷ text) ≡ false
    → find needle (c ∷ text) ≡ some p
    → ((q : ℕ) → find needle text ≡ some q → find needle (text ++ more) ≡ some q)
    → find needle (c ∷ text ++ more) ≡ some p
unfolding find
find-append_later needle c text more zero later h ih = ground arith
find-append_later needle c text more (suc p) later h ih =
    ground (arith, ih p, find-length needle text p, starts_with_short needle (c ∷ text) more)

-- More input does not change where the needle stands first.
pub find-append :
    (needle text more : Bytes) (p : ℕ)
    → find needle text ≡ some p
    → find needle (text ++ more) ≡ some p
unfolding find
find-append [] [] [] p h = h
find-append [] [] (d ∷ more) p h = unfold starts_with in h
find-append (n ∷ needle) [] more p h = absurd (unfold starts_with in ground arith)
find-append needle (c ∷ text) more p h = elim (Bool-cases (starts_with needle (c ∷ text))) [
  | inl here ↦ rw (starts_with-append needle (c ∷ text) more here) (ground arith)
  | inr later ↦ find-append_later needle c text more p later h (find-append needle text more)
]

-- The delimiter does not overlap a shorter copy of itself, so no message that lacks it can make
-- it begin early.
starts_with-deli_early :
    (c : ℕ) (m rest : Bytes)
    → starts_with deli (c ∷ m) ≡ false
    → starts_with deli (c ∷ m ++ deli ++ rest) ≡ false
unfolding starts_with
starts_with-deli_early c [] rest h = ground arith
starts_with-deli_early c (d ∷ []) rest h = ground arith
starts_with-deli_early c (d ∷ e ∷ []) rest h = ground arith
starts_with-deli_early c (d ∷ e ∷ f ∷ m) rest h = h

pub find-deli :
    (m rest : Bytes) → find deli m ≡ none → find deli (m ++ deli ++ rest) ≡ some (length m)
unfolding find
find-deli [] rest h = unfold starts_with in refl
find-deli (c ∷ m) rest h = elim (Bool-cases (starts_with deli (c ∷ m))) [
  | inl here ↦ absurd (ground arith)
  | inr later ↦ rw (starts_with-deli_early c m rest later) (ground (arith, find-deli m rest))
]

-- Below two gigabytes the conversion to `int` keeps the position, and `npos` becomes -1.
pub delimiter_position_found :
    (text : Bytes) (p : ℕ)
    → length text < 2 ^ 31
    → find deli text ≡ some p
    → delimiter_position text ≡ pos p
unfolding delimiter_position
delimiter_position_found text p l h = ground (arith, find-length deli text p)

pub delimiter_position_missing :
    (text : Bytes) → find deli text ≡ none → delimiter_position text ≡ negsuc 0
unfolding delimiter_position
delimiter_position_missing text h = rw (h, delimiter_position)
