-- ===== src/Ssh/Fence.antt =====
-- Putting the fence of core/src/ssh.rs into a file and taking it out again.
use mathlib.Core.List.{append_assoc, append-nil}
use lychgate.Prelude.{
  ℕ, zero, suc, ◌+◌, ◌≡◌, refl, ap, sym, subst, ◌∙◌, true, false, ◌||◌, ◌==◌, List, [], ◌∷◌, ◌++◌,
  Option, none, some, ok, ◌>>=◌, >>=-eq-ok, refuse_if, if◌then◌else◌, arith, All, All-append,
  length, length-append, take, drop, is_empty, any, Bool-cases, inl, inr,
}
use lychgate.Prelude.Text.{Text, bytes, text_eq, text_eq_iff}
use lychgate.Ssh.{
  lines, join, fence_begin, fence_end, bad_key, validate_key_line, validate_key_lines,
  has_substring, locate_fence, block, upserted, removed, fence_upsert, fence_remove,
}
use lychgate.Ssh.Lines.{is_line, lines-join, lines-All}
use lychgate.Ssh.Markers.{
  before, behind, IsClear, locate_fence-IsClear, locate_fence-block, take-length, drop-length,
}

abbrev AreLines : List Text → Type 0
AreLines ls = All (λ l. is_line l ≡ true) ls

is_line-any :
    (key : Text)
    → any (λ c. c == 10) key ≡ false
    → any (λ c. c == 13) key ≡ false
    → is_line key ≡ true
is_line-any [] p q = refl
is_line-any (c ∷ key) p q =
    ground (arith, p, q, is_line-any key (ground (arith, p)) (ground (arith, q)))

-- A key that holds no marker text is no marker.
not_marker :
    (key marker : Text)
    → has_substring (bytes "LYCHGATE") key ≡ false
    → has_substring (bytes "LYCHGATE") marker ≡ true
    → text_eq key marker ≡ false
not_marker key marker h m = elim (Bool-cases (text_eq key marker)) [
  | inr e ↦ e
  | inl e ↦ absurd (
      ground (
        arith,
        h,
        sym (
            subst (λ k. has_substring (bytes "LYCHGATE") k ≡ true)
              (sym ((text_eq_iff key marker).0 e)) m),
      ))
]

validate_key_lines-All :
    (trim : Text → Text) (keys : List Text)
    → validate_key_lines trim keys ≡ ok tt
    → AreLines keys × IsClear keys
unfolding validate_key_lines validate_key_line has_substring
validate_key_lines-All trim [] h = (tt, record { no_begin = tt; no_end = tt })
validate_key_lines-All trim (key ∷ keys) h =
    let (_, p, q) = >>=-eq-ok (validate_key_line trim key) (λ _. validate_key_lines trim keys) h in
    let (_, _, p₁) = >>=-eq-ok (refuse_if (is_empty (trim key)) (bad_key key)) _ p in
    let (_, r, p₂) =
      >>=-eq-ok (refuse_if (any (λ c. c == 10) key || any (λ c. c == 13) key) (bad_key key)) _ p₁ in
    let unmarked : has_substring (bytes "LYCHGATE") key ≡ false = ground (arith, p₂) in
    let (l, c) = validate_key_lines-All trim keys q in
    (
      (is_line-any key (ground (arith, r)) (ground (arith, r)), l),
      record {
        no_begin = (not_marker key fence_begin unmarked refl, c.no_begin);
        no_end = (not_marker key fence_end unmarked refl, c.no_end);
      },
    )

upserted_lem :
    (ls keys : List Text) (f : Option (ℕ × ℕ))
    → upserted ls keys f ≡ before ls f ++ (fence_begin ∷ (keys ++ (fence_end ∷ behind ls f)))
upserted_lem ls keys none = refl
upserted_lem ls keys (some (b, e)) =
    ap (λ t. take b ls ++ (fence_begin ∷ t)) (append_assoc keys (fence_end ∷ []) (drop (suc e) ls))

join-lines :
    (ls : List Text) → AreLines ls → lines (if is_empty ls then [] else join ls ++ (10 ∷ [])) ≡ ls
unfolding lines
join-lines [] h = refl
join-lines (l ∷ ls) h = lines-join l ls h

AreLines-take : (n : ℕ) (ls : List Text) → AreLines ls → AreLines (take n ls)
AreLines-take zero ls h = tt
AreLines-take (suc n) [] h = tt
AreLines-take (suc n) (l ∷ ls) h = (h.0, AreLines-take n ls h.1)

AreLines-drop : (n : ℕ) (ls : List Text) → AreLines ls → AreLines (drop n ls)
AreLines-drop zero ls h = h
AreLines-drop (suc n) [] h = tt
AreLines-drop (suc n) (l ∷ ls) h = AreLines-drop n ls h.1

around :
    (ls : List Text) (f : Option (ℕ × ℕ))
    → AreLines ls
    → AreLines (before ls f) × AreLines (behind ls f)
around ls none h = (h, tt)
around ls (some (b, e)) h = (AreLines-take b ls h, AreLines-drop (suc e) ls h)

removed-lines :
    (file : Text) (f : Option (ℕ × ℕ))
    → AreLines (lines file)
    → lines (removed file f) ≡ before (lines file) f ++ behind (lines file) f
removed-lines file none h = sym (append-nil (lines file))
removed-lines file (some (b, e)) h = join-lines (take b (lines file) ++ drop (suc e) (lines file)) (
    All-append (λ l. is_line l ≡ true) _ _ (AreLines-take b (lines file) h)
      (AreLines-drop (suc e) (lines file) h))

joined :
    (pre : List Text) (l : Text) (post : List Text)
    → AreLines (pre ++ (l ∷ post))
    → lines (join (pre ++ (l ∷ post)) ++ (10 ∷ [])) ≡ pre ++ (l ∷ post)
joined [] l post h = lines-join l post h
joined (x ∷ pre) l post h = lines-join x (pre ++ (l ∷ post)) h

taken_out :
    (file : Text) (pre keys post : List Text)
    → AreLines pre
    → AreLines keys
    → AreLines post
    → IsClear pre
    → IsClear keys
    → IsClear post
    → lines file ≡ pre ++ (fence_begin ∷ (keys ++ (fence_end ∷ post)))
    → (b : Text) × (fence_remove file ≡ ok b) × (lines b ≡ pre ++ post)
unfolding fence_remove
taken_out file pre keys post a b c x y z same =
    let n = length pre in
    let fence : Option (ℕ × ℕ) = some (n, length keys + suc n) in
    let found : locate_fence (lines file) ≡ ok fence =
      ap locate_fence same ∙ locate_fence-block pre keys post x y z in
    let front : take n (lines file) ≡ pre =
      ap (take n) same ∙ take-length pre (fence_begin ∷ (keys ++ (fence_end ∷ post))) in
    let long : lines file ≡ (pre ++ (fence_begin ∷ keys)) ++ (fence_end ∷ post) =
      same ∙ sym (append_assoc pre (fence_begin ∷ keys) (fence_end ∷ post)) in
    let count : length keys + suc n ≡ length (pre ++ (fence_begin ∷ keys)) =
      omega (arith, length-append pre (fence_begin ∷ keys)) in
    let tail : drop (suc (length keys + suc n)) (lines file) ≡ post =
      ap (λ k. drop (suc k) (lines file)) count
      ∙ ap (drop (suc (length (pre ++ (fence_begin ∷ keys))))) long
      ∙ drop-length (pre ++ (fence_begin ∷ keys)) fence_end post in
    let all_lines : AreLines (lines file) = subst AreLines (sym same) (
      All-append (λ l. is_line l ≡ true) pre (fence_begin ∷ (keys ++ (fence_end ∷ post))) a
        (refl, All-append (λ l. is_line l ≡ true) keys (fence_end ∷ post) b (refl, c))) in
    (
      removed file fence,
      ap (λ r. r >>= λ f. ok (removed file f)) found,
      removed-lines file fence all_lines
          ∙ ap (λ t. t ++ drop (suc (length keys + suc n)) (lines file)) front
          ∙ ap (λ t. pre ++ t) tail,
    )

-- From a file without carriage returns, an insertion of the fence that succeeds gives a file whose lines are
-- the lines outside the old fence with the new fence among them, and removing the fence from the old file and
-- from the new one succeeds and leaves the same lines.
pub fence_remove-fence_upsert :
    (trim : Text → Text) (existing file : Text) (keys : List Text)
    → any (λ c. c == 13) existing ≡ false
    → fence_upsert trim existing keys ≡ ok file
    → (pre post : List Text) × (a b : Text) × (fence_remove existing ≡ ok a)
      × (lines a ≡ pre ++ post)
      × (lines file ≡ pre ++ (block keys ++ post))
      × (fence_remove file ≡ ok b)
      × (lines b ≡ pre ++ post)
unfolding fence_upsert fence_remove
fence_remove-fence_upsert trim existing file keys no_return h =
    let ls = lines existing in
    let (_, p, h₁) = >>=-eq-ok (validate_key_lines trim keys) _ h in
    let (fence, q, h₂) =
      >>=-eq-ok (locate_fence ls) (λ f. ok (join (upserted ls keys f) ++ (10 ∷ []))) h₁ in
    let (key_lines, key_clear) = validate_key_lines-All trim keys p in
    let all_lines = lines-All existing no_return in
    let (clear, clear') = locate_fence-IsClear ls fence q in
    let (front, back) = around ls fence all_lines in
    let pre = before ls fence in
    let post = behind ls fence in
    let made : join (upserted ls keys fence) ++ (10 ∷ []) ≡ file = ground (arith, h₂) in
    let whole : AreLines (pre ++ (fence_begin ∷ (keys ++ (fence_end ∷ post)))) =
      All-append (λ l. is_line l ≡ true) pre (fence_begin ∷ (keys ++ (fence_end ∷ post))) front
        (refl, All-append (λ l. is_line l ≡ true) keys (fence_end ∷ post) key_lines (refl, back)) in
    let same : lines file ≡ pre ++ (fence_begin ∷ (keys ++ (fence_end ∷ post))) =
      ap lines (sym made ∙ ap (λ t. join t ++ (10 ∷ [])) (upserted_lem ls keys fence))
      ∙ joined pre fence_begin (keys ++ (fence_end ∷ post)) whole in
    let (b, out, after) =
      taken_out file pre keys post front key_lines back clear key_clear clear' same in
    (
      pre,
      post,
      removed existing fence,
      b,
      ap (λ r. r >>= λ f. ok (removed existing f)) q,
      removed-lines existing fence all_lines,
      same ∙ ap (λ t. pre ++ (fence_begin ∷ t)) (sym (append_assoc keys (fence_end ∷ []) post)),
      out,
      after,
    )
