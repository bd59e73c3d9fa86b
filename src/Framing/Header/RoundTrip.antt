-- ===== src/Framing/Header/RoundTrip.antt =====
-- A request that `send` builds is read back by `dealMessage`.
use vs2017code.Base.{
  ℕ, ◌+◌, ◌≤◌, ◌<◌, ◌≡◌, sym, ap, true, ◌∙◌, arith, Bytes, ◌++◌, some, length, length-append, drop,
  drop-append_length, leb,
}
use vs2017code.Framing.Delimiter.{deli}
use vs2017code.Framing.Header.{fill_header, send, field_text, parse_message}
use vs2017code.Framing.Header.Memory.{
  window, IsText, strcpy_text, window-append, window_below, window_at, written, length-written,
  field_text_member,
}

-- The limits within which the texts fit their members, the user name with its NUL.
pub record Fits (cmd format user_name : Bytes) : Type 0 where
  pub cmd_text : IsText cmd
  pub cmd_some : 0 < length cmd
  pub cmd_room : length cmd ≤ 8
  pub format_text : IsText format
  pub format_some : 0 < length format
  pub format_room : length format ≤ 4
  pub user_text : IsText user_name
  pub user_some : 0 < length user_name
  pub user_room : length user_name < 32

module _ (stack cmd format user_name : Bytes) (size : length stack ≡ 44)
    (fits : Fits cmd format user_name) where
  abbrev with_cmd : Bytes
  with_cmd = written 0 cmd stack

  abbrev with_format : Bytes
  with_format = written 8 format with_cmd

  abbrev head : Bytes
  head = written 12 user_name with_format

  length-with_cmd : length with_cmd ≡ 44
  length-with_cmd = omega (arith, length-written 0 cmd stack (omega arith))

  length-with_format : length with_format ≡ 44
  length-with_format =
      omega
        (arith, length-with_cmd, length-written 8 format with_cmd (omega (arith, length-with_cmd)))

  length-head : length head ≡ 44
  length-head = omega (
    arith,
    length-with_format,
    length-written 12 user_name with_format (omega (arith, length-with_format)),
  )

  fill_header_lem : fill_header stack cmd format user_name ≡ some head
  unfolding fill_header
  fill_header_lem = rw (
    strcpy_text 0 cmd stack fits.cmd_text (omega arith),
    strcpy_text 8 format with_cmd fits.format_text (omega (arith, length-with_cmd)),
    strcpy_text 12 user_name with_format fits.user_text (omega (arith, length-with_format)),
  )

  cmd_member : field_text (window 0 8 head) ≡ cmd
  cmd_member =
      ap field_text (
        window_below 0 8 12 with_format _ (omega arith) (omega (arith, length-with_format))
        ∙ window_below 0 8 8 with_cmd _ (omega arith) (omega (arith, length-with_cmd))
        ∙ window_at 8 0 stack _ (omega arith))
      ∙ field_text_member 8 cmd _ fits.cmd_text fits.cmd_some fits.cmd_room

  format_member : field_text (window 8 4 head) ≡ format
  format_member =
      ap field_text (
        window_below 8 4 12 with_format _ (omega arith) (omega (arith, length-with_format))
        ∙ window_at 4 8 with_cmd _ (omega (arith, length-with_cmd)))
      ∙ field_text_member 4 format _ fits.format_text fits.format_some fits.format_room

  user_member : field_text (window 12 32 head) ≡ user_name
  user_member =
      ap field_text (window_at 32 12 with_format _ (omega (arith, length-with_format)))
      ∙ field_text_member 32 user_name _ fits.user_text fits.user_some
          (omega (arith, fits.user_room))

-- Whatever the uninitialised header held, `send` with a command of 1 to 8 bytes, a format of 1 to
-- 4 and a user name of 1 to 31, all without NUL, produces a message before the delimiter which
-- `dealMessage` takes apart into that command, format, user name and body.
pub parse_message-send :
    (stack cmd format user_name body : Bytes)
    → length stack ≡ 44
    → Fits cmd format user_name
    → (message : Bytes) × (send stack cmd format user_name body ≡ some (message ++ deli))
      × (parse_message message
          ≡ some (record { cmd = cmd; format = format; user_name = user_name; body = body }))
unfolding send parse_message
parse_message-send stack cmd format user_name body size fits =
    (head' ++ body, rw (fill_header_lem stack cmd format user_name size fits, send), parsed)
  where
    head' : Bytes
    head' = head stack cmd format user_name size fits

    l : length head' ≡ 44
    l = length-head stack cmd format user_name size fits

    in_head : (a n : ℕ) → a + n ≤ 44 → window a n (head' ++ body) ≡ window a n head'
    in_head a n h = window-append a n head' body (omega (arith, l))

    long : leb 44 (length (head' ++ body)) ≡ true
    long = ground (arith, l, length-append head' body)

    body_rest : drop 44 (head' ++ body) ≡ body
    body_rest = ap (λ k. drop k (head' ++ body)) (sym l) ∙ drop-append_length head' body

    parsed :
        parse_message (head' ++ body)
        ≡ some (record { cmd = cmd; format = format; user_name = user_name; body = body })
    parsed = rw (
      parse_message,
      long,
      in_head 0 8 (omega arith),
      in_head 8 4 (omega arith),
      in_head 12 32 (omega arith),
      cmd_member stack cmd format user_name size fits,
      format_member stack cmd format user_name size fits,
      user_member stack cmd format user_name size fits,
      body_rest,
    )
