-- ===== src/Quotes/Packet/Layout.antt =====
-- Where the names of a result stand in its packet.
use vs2017code.Base.{
  ℕ, zero, suc, ◌+◌, ◌≤◌, ◌<◌, ◌≡◌, refl, sym, ap, ◌∙◌, arith, Bytes, codes, true, false, [], ◌∷◌,
  ◌++◌, append_assoc, none, some, bytes_eq, length, length-append, drop, take-append_length,
  drop-append_le, append-nil, length-drop, leb,
}
use native.Mathlib.Nat.{zero-add}
use vs2017code.Base.Chain.{◌>>=◌}
use vs2017code.Framing.LengthHeader.{host_to_network32}
use vs2017code.Framing.Header.{overwrite}
use vs2017code.Quotes.Packet.{
  Quote, hq_size, zeros, fill_hq, front_packet, send_hq, send, send_quote,
}

-- A name with zeros behind it, up to the size of its member.
abbrev pub padded : ℕ → Bytes → Bytes
padded size name = name ++ drop (length name) (zeros size)

drop-append_past :
    (k : ℕ) (before behind : Bytes) → drop (length before + k) (before ++ behind) ≡ drop k behind
drop-append_past k [] behind = rw zero-add refl
drop-append_past k (c ∷ before) behind =
    let e : suc (length before) + k ≡ suc (length before + k) = omega arith in
    rw e (drop-append_past k before behind)

length-zeros : (n : ℕ) → length (zeros n) ≡ n
length-zeros zero = refl
length-zeros (suc n) = ap suc (length-zeros n)

-- A write into a member that is large enough leaves the others as they are.
overwrite_member :
    (offset : ℕ) (name before member behind : Bytes)
    → offset ≡ length before
    → length name ≤ length member
    → overwrite offset name (before ++ (member ++ behind))
      ≡ some (before ++ ((name ++ drop (length name) member) ++ behind))
unfolding overwrite
overwrite_member offset name before member behind at fits =
    let size : length (before ++ (member ++ behind))
        ≡ length before + (length member + length behind) =
      omega (arith, length-append before (member ++ behind), length-append member behind) in
    let kept : drop (length before + length name) (before ++ (member ++ behind))
        ≡ drop (length name) member ++ behind =
      drop-append_past (length name) before (member ++ behind)
      ∙ drop-append_le (length name) member behind fits in
    let room : leb (length before + length name) (length (before ++ (member ++ behind))) ≡ true =
      ground (arith, size) in
    rw (at, overwrite, room, kept, take-append_length before (member ++ behind))
      (ap (λ m. some (before ++ m)) (sym (append_assoc name (drop (length name) member) behind)))

length-padded : (size : ℕ) (name : Bytes) → length name ≤ size → length (padded size name) ≡ size
length-padded size name fits = omega (
  arith,
  length-append name (drop (length name) (zeros size)),
  length-drop (length name) (zeros size),
  length-zeros size,
)

-- The names of a result, and the limits within which they fit their members.
module _ (commodity contract_no exchange : Bytes) (commodity_fits : length commodity ≤ 8)
    (contract_no_fits : length contract_no ≤ 4) where
  with_commodity :
      overwrite 0 commodity (zeros hq_size) ≡ some (padded 8 commodity ++ (zeros 4 ++ zeros 8))
  with_commodity = overwrite_member 0 commodity [] (zeros 8) (zeros 12) refl commodity_fits

  with_contract_no :
      overwrite 8 contract_no (padded 8 commodity ++ (zeros 4 ++ zeros 8))
      ≡ some (padded 8 commodity ++ (padded 4 contract_no ++ zeros 8))
  with_contract_no =
      overwrite_member 8 contract_no (padded 8 commodity) (zeros 4) (zeros 8)
        (sym (length-padded 8 commodity commodity_fits)) contract_no_fits

  front_length : length (padded 8 commodity ++ padded 4 contract_no) ≡ 12
  front_length = omega (
    arith,
    length-append (padded 8 commodity) (padded 4 contract_no),
    length-padded 8 commodity commodity_fits,
    length-padded 4 contract_no contract_no_fits,
  )

  abbrev front : Bytes
  front = padded 8 commodity ++ padded 4 contract_no

  fill_hq_last : fill_hq commodity contract_no exchange ≡ overwrite 12 exchange (front ++ zeros 8)
  unfolding fill_hq
  fill_hq_last =
      ap (λ o. o >>= (λ m. overwrite 8 contract_no m >>= (λ m'. overwrite 12 exchange m')))
        with_commodity
      ∙ ap (λ o. o >>= (λ m. overwrite 12 exchange m)) with_contract_no
      ∙ ap (overwrite 12 exchange)
          (sym (append_assoc (padded 8 commodity) (padded 4 contract_no) (zeros 8)))

  fill_hq_lem :
      length exchange ≤ 8
      → fill_hq commodity contract_no exchange ≡ some (front ++ padded 8 exchange)
  fill_hq_lem exchange_fits =
      fill_hq_last
      ∙ overwrite_member 12 exchange front (zeros 8) [] (sym front_length) exchange_fits
      ∙ ap (λ m. some (front ++ m)) (append-nil (padded 8 exchange))

  fill_hq_overflow : 8 < length exchange → fill_hq commodity contract_no exchange ≡ none
  unfolding overwrite
  fill_hq_overflow too_long =
      let size : length (front ++ zeros 8) ≡ 20 =
        omega (arith, length-append front (zeros 8), front_length) in
      let room : leb (12 + length exchange) (length (front ++ zeros 8)) ≡ false =
        ground (arith, size) in
      fill_hq_last ∙ rw (overwrite, room) refl

-- The names of a result, each in a member of the packet.
abbrev pub members : Quote → Bytes
members quote = padded 8 quote.commodity ++ padded 4 quote.contract_no ++ padded 8 quote.exchange

send_hq_lem :
    (cmd format body res_str hq : Bytes)
    → fill_hq cmd format body ≡ some hq
    → length hq ≡ hq_size
    → send_hq cmd format body res_str
      ≡ some (6 ∷ zeros 4 ++ (host_to_network32 (length (hq ++ res_str)) ++ (hq ++ res_str)))
unfolding send_hq front_packet
send_hq_lem cmd format body res_str hq filled size =
    rw (send_hq, filled, length-append hq res_str, size) refl

-- A result whose commodity is at most 8 bytes and not the command of a login, with a contract number
-- of at most 4 and an exchange of at most 8 bytes, is sent as: 6, four zeros, the length of what
-- follows in four bytes, then the commodity in the 8 bytes of `exchange`, the contract number in the 4
-- bytes of `comodity` and the exchange in the 8 bytes of `contractNo`, each with zeros behind it, and
-- the text. With a longer exchange, `send` writes behind the end of the struct.
pub send_quote_layout :
    (quote : Quote)
    → bytes_eq quote.commodity (codes "LGIN") ≡ false
    → length quote.commodity ≤ 8
    → length quote.contract_no ≤ 4
    → (length quote.exchange ≤ 8
        → send_quote quote
          ≡ some (
              6 ∷ zeros 4
              ++ (host_to_network32 (length (members quote ++ quote.res_str))
                  ++ (members quote ++ quote.res_str))))
      × (8 < length quote.exchange → send_quote quote ≡ none)
unfolding send_quote send send_hq
send_quote_layout quote other commodity_fits contract_no_fits =
    let size : length quote.exchange ≤ 8 → length (members quote) ≡ hq_size = λ exchange_fits.
      omega (
        arith,
        length-append (padded 8 quote.commodity ++ padded 4 quote.contract_no)
            (padded 8 quote.exchange),
        front_length quote.commodity quote.contract_no quote.exchange commodity_fits
            contract_no_fits,
        length-padded 8 quote.exchange exchange_fits,
      ) in
    (
      (λ exchange_fits.
          rw (send_quote, send, other)
            (send_hq_lem quote.commodity quote.contract_no quote.exchange quote.res_str
              (members quote)
              (fill_hq_lem quote.commodity quote.contract_no quote.exchange commodity_fits
                contract_no_fits exchange_fits)
              (size exchange_fits))),
      λ too_long.
          rw
            (
              send_quote,
              send,
              other,
              send_hq,
              fill_hq_overflow quote.commodity quote.contract_no quote.exchange commodity_fits
                  contract_no_fits too_long,
            )
            refl,
    )
