-- ===== src/Ssh.antt =====
-- core/src/ssh.rs: postures of root logins and the fence in a file of authorized keys. A line is cut as `str::lines`
-- cuts it. `trim` is `str::trim`; an error's message is left out.
pub mod Lines
pub mod Markers
pub mod Fence
mod Tests
use lychgate.Prelude.{
  ℕ, zero, suc, ◌+◌, Bool, true, false, not, ◌&&◌, ◌||◌, List, [], ◌∷◌, ◌++◌, Option, none, some,
  Result, ok, err, ◌>>=◌, ◌>>◌, refuse_if, ltb, ◌==◌, if◌then◌else◌, take, drop, is_empty, any,
}
use lychgate.Prelude.Text.{Text, bytes, text_eq}

pub data Posture : Type 0 where
  no_login prohibit_password login : Posture

unfoldable pub sshd_token : Posture → Text
sshd_token no_login = bytes "no"
sshd_token prohibit_password = bytes "prohibit-password"
sshd_token login = bytes "yes"

-- The older spelling is read too.
unfoldable pub from_sshd_token : Text → Option Posture
from_sshd_token token =
    if text_eq token (bytes "no")
    then some no_login
    else if text_eq token (bytes "prohibit-password") || text_eq token (bytes "without-password")
    then some prohibit_password
    else if text_eq token (bytes "yes")
    then some login
    else none

unfoldable pub render_dropin : Posture → Text
render_dropin posture =
    bytes "# Managed by lychgated; do not edit. Removed when the grant closes."
    ++ (10 ∷ (bytes "PermitRootLogin " ++ (sshd_token posture ++ (10 ∷ []))))

abbrev pub fence_begin : Text
fence_begin = bytes "# --- LYCHGATE BEGIN break-glass keys; do not edit this block ---"

abbrev pub fence_end : Text
fence_end = bytes "# --- LYCHGATE END ---"

pub data FenceError : Type 0 where
  malformed : FenceError
  bad_key : Text → FenceError

abbrev pub cons_head : ℕ → List Text → List Text
cons_head c [] = (c ∷ []) ∷ []
cons_head c (l ∷ ls) = (c ∷ l) ∷ ls

abbrev pub at_newline : Text → Bool
at_newline [] = false
at_newline (c ∷ _) = c == 10

-- A newline ends a line, and so does a carriage return before it.
unfoldable pub lines : Text → List Text
lines [] = []
lines (c ∷ s) =
    let rest = lines s in
    if c == 10 then [] ∷ rest else if c == 13 && at_newline s then rest else cons_head c rest

unfoldable pub join : List Text → Text
join [] = []
join (l ∷ []) = l
join (l ∷ m ∷ ls) = l ++ (10 ∷ join (m ∷ ls))

abbrev is_prefix : Text → Text → Bool
is_prefix [] s = true
is_prefix (p ∷ ps) [] = false
is_prefix (p ∷ ps) (c ∷ s) = p == c && is_prefix ps s

-- `str::contains`.
unfoldable pub has_substring : Text → Text → Bool
has_substring p [] = is_prefix p []
has_substring p (c ∷ s) = is_prefix p (c ∷ s) || has_substring p s

unfoldable pub validate_key_line : (Text → Text) → Text → Result FenceError (Unit {0})
validate_key_line trim key = do
  refuse_if (is_empty (trim key)) (bad_key key)
  refuse_if (any (λ c. c == 10) key || any (λ c. c == 13) key) (bad_key key)
  refuse_if (has_substring (bytes "LYCHGATE") key) (bad_key key)

unfoldable pub validate_key_lines : (Text → Text) → List Text → Result FenceError (Unit {0})
validate_key_lines trim [] = ok tt
validate_key_lines trim (key ∷ keys) = validate_key_line trim key >> validate_key_lines trim keys

-- The indices of the marker, the first line's being `i`.
unfoldable pub positions : ℕ → List Text → Text → List ℕ
positions i [] marker = []
positions i (l ∷ ls) marker =
    let rest = positions (suc i) ls marker in if text_eq l marker then i ∷ rest else rest

abbrev pub located : List ℕ → List ℕ → Result FenceError (Option (ℕ × ℕ))
located [] [] = ok none
located (b ∷ []) (e ∷ []) = if ltb b e then ok (some (b, e)) else err malformed
located _ _ = err malformed

unfoldable pub locate_fence : List Text → Result FenceError (Option (ℕ × ℕ))
locate_fence ls = located (positions 0 ls fence_begin) (positions 0 ls fence_end)

abbrev pub block : List Text → List Text
block keys = fence_begin ∷ (keys ++ (fence_end ∷ []))

-- The lines of the file with the block in place of the fence, or at the end.
abbrev pub upserted : List Text → List Text → Option (ℕ × ℕ) → List Text
upserted ls keys none = ls ++ block keys
upserted ls keys (some (b, e)) = take b ls ++ (block keys ++ drop (suc e) ls)

unfoldable pub fence_upsert : (Text → Text) → (existing : Text) → List Text → Result FenceError Text
fence_upsert trim existing keys = do
  validate_key_lines trim keys
  fence ← locate_fence (lines existing)
  ok (join (upserted (lines existing) keys fence) ++ (10 ∷ []))

abbrev pub removed : (existing : Text) → Option (ℕ × ℕ) → Text
removed existing none = existing
removed existing (some (b, e)) =
    let out = take b (lines existing) ++ drop (suc e) (lines existing) in
    if is_empty out then [] else join out ++ (10 ∷ [])

unfoldable pub fence_remove : (existing : Text) → Result FenceError Text
fence_remove existing = do fence ← locate_fence (lines existing); ok (removed existing fence)
