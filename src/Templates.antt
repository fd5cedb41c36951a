-- ===== src/Templates.antt =====
-- core/src/vnc.rs and core/src/generic.rs: the placeholders of a command template, and the state that a response
-- shows. `skip` counts the bytes that the source's index jumps over.
pub mod Found
use lychgate.Prelude.{
  ℕ, zero, suc, ◌+◌, Bool, true, false, not, ◌&&◌, ◌||◌, List, [], ◌∷◌, ◌++◌, Option, none, some,
  Result, ok, err, ◌>>=◌, ◌>>◌, refuse_if, leb, ◌==◌, if◌then◌else◌, is_empty, any, length,
}
use lychgate.Prelude.Text.{Text, bytes, text_eq}
use lychgate.Channel.Drivers.{ChannelState, closed, opened}
use lychgate.Ssh.{has_substring}

pub data VncTemplateError : Type 0 where
  quoted missing_password_file clear_has_password_file : VncTemplateError
  unknown_placeholder : Text → VncTemplateError

abbrev pub is_name_byte : ℕ → Bool
is_name_byte c = leb b'a' c && leb c b'z' || leb b'A' c && leb c b'Z' || c == b'_'

-- The name bytes up to a closing brace.
unfoldable pub name_run : Text → Option Text
name_run [] = none
name_run (c ∷ s) =
    let rest = name_run s in
    if is_name_byte c
    then elim rest [ none ↦ none | some name ↦ some (c ∷ name) ]
    else if c == b'}'
    then some []
    else none

-- A name of one byte at least.
abbrev pub name_at : Text → Option Text
name_at s = elim (name_run s) [ none ↦ none | some [] ↦ none | some (c ∷ name) ↦ some (c ∷ name) ]

-- A brace opens a placeholder unless a dollar sign stands before it.
unfoldable pub scan_names : (skip previous : ℕ) → Text → List Text
scan_names skip previous [] = []
scan_names (suc skip) previous (c ∷ s) = scan_names skip c s
scan_names zero previous (c ∷ s) =
    let on = scan_names zero c s in
    if c == b'{' && not (previous == b'$')
    then (elim (name_at s) [ none ↦ on | some name ↦ name ∷ scan_names (suc (length name)) c s ])
    else on

unfoldable pub placeholders : Text → List Text
placeholders template = scan_names 0 0 template

refuse_quotes : Text → Result VncTemplateError (Unit {0})
refuse_quotes template = refuse_if (any (λ c. c == 39) template) quoted

known_placeholders : List Text → List Text → Result VncTemplateError (Unit {0})
known_placeholders known [] = ok tt
known_placeholders known (p ∷ ps) =
    refuse_if (not (any (λ k. text_eq k p) known)) (unknown_placeholder p)
    >> known_placeholders known ps

unfoldable pub check_set_command : Text → Result VncTemplateError (Unit {0})
unfolding refuse_quotes known_placeholders
check_set_command template = do
  refuse_quotes template
  known_placeholders (bytes "target" ∷ bytes "password_file" ∷ []) (placeholders template)
  refuse_if (not (any (λ p. text_eq p (bytes "password_file")) (placeholders template)))
      missing_password_file

unfoldable pub clear_placeholders : List Text → Result VncTemplateError (Unit {0})
clear_placeholders [] = ok tt
clear_placeholders (p ∷ ps) = do
  refuse_if (text_eq p (bytes "password_file")) clear_has_password_file
  refuse_if (not (text_eq (bytes "target") p)) (unknown_placeholder p)
  clear_placeholders ps

unfoldable pub check_clear_command : Text → Result VncTemplateError (Unit {0})
unfolding refuse_quotes
check_clear_command template = refuse_quotes template >> clear_placeholders (placeholders template)

-- The placeholder that a generic channel would send as it is.
unfoldable pub forbid_placeholders : Text → Result Text (Unit {0})
forbid_placeholders template = elim (placeholders template) [ [] ↦ ok tt | p ∷ _ ↦ err p ]

pub data MatchError : Type 0 where
  neither both : MatchError

unfoldable pub match_state :
    (body open_marker closed_marker : Text) → Result MatchError ChannelState
match_state body open_marker closed_marker =
    if has_substring open_marker body
    then (if has_substring closed_marker body then err both else ok opened)
    else (if has_substring closed_marker body then ok closed else err neither)
