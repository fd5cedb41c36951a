-- ===== src/Ssh/Tests.antt =====
-- The fence of core/src/ssh.rs in small files.
use lychgate.Prelude.{◌≡◌, refl, List, [], ◌∷◌, ◌++◌, ok}
use lychgate.Prelude.Text.{Text, bytes, text_compare}
use lychgate.Ssh.{
  lines, join, fence_upsert, fence_remove, locate_fence, validate_key_line, validate_key_lines,
  block, positions, has_substring,
}
use lychgate.Ssh.Fence.{fence_remove-fence_upsert}

-- A carriage return at the end of a line is lost.
lines_test : lines (bytes "a" ++ (13 ∷ 10 ∷ bytes "b")) ≡ bytes "a" ∷ bytes "b" ∷ []
unfolding lines
lines_test = refl

abbrev existing : Text
existing = bytes "k1" ++ (10 ∷ [])

abbrev key : Text
key = bytes "ssh-ed25519 AAAA"

abbrev fenced : Text
fenced = join (lines existing ++ block (key ∷ [])) ++ (10 ∷ [])

fence_remove-fence_upsert_example :
    (pre post : List Text) × (a b : Text) × (fence_remove existing ≡ ok a)
    × (lines a ≡ pre ++ post)
    × (lines fenced ≡ pre ++ (block (key ∷ []) ++ post))
    × (fence_remove fenced ≡ ok b)
    × (lines b ≡ pre ++ post)
unfolding fence_upsert validate_key_lines validate_key_line has_substring locate_fence positions
    lines text_compare
fence_remove-fence_upsert_example =
    fence_remove-fence_upsert (λ t. t) existing fenced (key ∷ []) refl refl
