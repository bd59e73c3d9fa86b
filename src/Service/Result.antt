-- ===== src/Service/Result.antt =====
-- What a run of the request handler comes to: it returns, it does something undefined, or it has not
-- ended within the fuel of its loops.
pub data Result (A : Type 0) : Type 0 where
  done : A → Result A
  undefined : Result A
  unfinished : Result A

infixl 5 ◌>>=◌
abbrev pub ◌>>=◌ : {A B : Type 0} → Result A → (A → Result B) → Result B
done a >>= f = f a
undefined >>= f = undefined
unfinished >>= f = unfinished
