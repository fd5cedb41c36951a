-- ===== src/Wire/Line/Commands.antt =====
-- The device parses the commands that the daemon renders (wire/src/line.rs).
use lychgate.Prelude.{
  ◌+◌, ◌≡◌, refl, inl, inr, [], ok, err, ◌>>=◌, length, ltb, if◌then◌else◌, Bool-cases,
}
use lychgate.Wire.{buffer_too_small}
use lychgate.Prelude.Text.{Text, bytes, text_compare}
use lychgate.Wire.Line.{
  Command, token, revoke, status, se_pubkey, se_sign, max_line_len, push, render_command, trim_end,
  parse_command,
}

-- A command is its word, with the blank that sets off an argument, and its argument.
abbrev word : Command → Text
word (token t) = bytes "TOK "
word (revoke t) = bytes "RVK "
word status = bytes "STAT"
word se_pubkey = bytes "SE-PUBKEY?"
word (se_sign c) = bytes "SE-SIGN "

abbrev argument : Command → Text
argument (token t) = t
argument (revoke t) = t
argument status = []
argument se_pubkey = []
argument (se_sign c) = c

-- A command whose argument does not end in a line break is rendered to a line that parses to it when its word
-- and its argument fit together in a line, and otherwise its rendering is refused because the buffer is too
-- small.
pub render_command-parse :
    (c : Command)
    → trim_end (argument c) ≡ argument c
    → (render_command c >>= parse_command) ≡ (
        if ltb max_line_len (length (word c) + length (argument c))
        then err buffer_too_small
        else ok c)
unfolding render_command parse_command trim_end push text_compare
render_command-parse (token t) e = elim (Bool-cases (ltb max_line_len (4 + length t))) [
  | inl h ↦ rw h refl
  | inr h ↦ rw h (rw e refl)
]
render_command-parse (revoke t) e = elim (Bool-cases (ltb max_line_len (4 + length t))) [
  | inl h ↦ rw h refl
  | inr h ↦ rw h (rw e refl)
]
render_command-parse status e = refl
render_command-parse se_pubkey e = refl
render_command-parse (se_sign c) e = elim (Bool-cases (ltb max_line_len (8 + length c))) [
  | inl h ↦ rw h refl
  | inr h ↦ rw h (rw e refl)
]
