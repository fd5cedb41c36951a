-- ===== src/Ssh/Markers.antt =====
-- Where the markers of a fence stand among the lines of a file, as core/src/ssh.rs looks for them.
use lychgate.Prelude.{
  ℕ, zero, suc, ◌+◌, ◌-◌, ◌<◌, ◌⊎◌, ◌≡◌, refl, ap, sym, subst, ◌∙◌, false, List, [], ◌∷◌, ◌++◌,
  Option, none, some, ok, ltb, arith, All, length, take, drop, Bool-cases, inl, inr, lt→ltb, ltb→lt,
}
use lychgate.Prelude.Text.{Text, text_eq, text_eq_iff, text_compare}
use lychgate.Ssh.{positions, locate_fence, located, fence_begin, fence_end}

-- No line is the marker.
abbrev pub Lacks : Text → List Text → Type 0
Lacks marker ls = All (λ l. text_eq l marker ≡ false) ls

positions-append :
    (marker : Text) (xs ys : List Text) (i : ℕ)
    → Lacks marker xs
    → positions i (xs ++ ys) marker ≡ positions (length xs + i) ys marker
unfolding positions
positions-append marker [] ys i h = ap (λ i. positions i ys marker) (omega arith)
positions-append marker (x ∷ xs) ys i h =
    rw h.0
      (positions-append marker xs ys (suc i) h.1 ∙ ap (λ i. positions i ys marker) (omega arith))

positions-Lacks :
    (marker : Text) (xs : List Text) (i : ℕ) → Lacks marker xs → positions i xs marker ≡ []
unfolding positions
positions-Lacks marker [] i h = refl
positions-Lacks marker (x ∷ xs) i h = rw h.0 (positions-Lacks marker xs (suc i) h.1)

Lacks-positions :
    (marker : Text) (xs : List Text) (i : ℕ) → positions i xs marker ≡ [] → Lacks marker xs
unfolding positions
Lacks-positions marker [] i h = tt
Lacks-positions marker (x ∷ xs) i h = elim (Bool-cases (text_eq x marker)) [
  | inl e ↦ absurd (ground (arith, h, e))
  | inr e ↦ (e, Lacks-positions marker xs (suc i) (ground (arith, h, e)))
]

-- The one line that is the marker, and the lines around it.
positions-one :
    (marker : Text) (xs : List Text) (i b : ℕ)
    → positions i xs marker ≡ b ∷ []
    → (pre post : List Text) × (xs ≡ pre ++ (marker ∷ post))
      × (b ≡ length pre + i)
      × Lacks marker pre
      × Lacks marker post
unfolding positions
positions-one marker [] i b h = absurd (ground (arith, h))
positions-one marker (x ∷ xs) i b h = elim (Bool-cases (text_eq x marker)) [
  | inl e ↦ (
    [],
    xs,
    ap (λ x. x ∷ xs) ((text_eq_iff x marker).0 e),
    ground (arith, h, e),
    tt,
    Lacks-positions marker xs (suc i) (ground (arith, h, e)),
  )
  | inr e ↦
      let (pre, post, same, at, l, r) = positions-one marker xs (suc i) b (ground (arith, h, e)) in
      (x ∷ pre, post, ap (λ xs. x ∷ xs) same, omega (arith, at), (e, l), r)
]

Lacks-take : (marker : Text) (n : ℕ) (xs : List Text) → Lacks marker xs → Lacks marker (take n xs)
Lacks-take marker zero xs h = tt
Lacks-take marker (suc n) [] h = tt
Lacks-take marker (suc n) (x ∷ xs) h = (h.0, Lacks-take marker n xs h.1)

Lacks-drop : (marker : Text) (n : ℕ) (xs : List Text) → Lacks marker xs → Lacks marker (drop n xs)
Lacks-drop marker zero xs h = h
Lacks-drop marker (suc n) [] h = tt
Lacks-drop marker (suc n) (x ∷ xs) h = Lacks-drop marker n xs h.1

take-append : (n : ℕ) (xs ys : List Text) → n < suc (length xs) → take n (xs ++ ys) ≡ take n xs
take-append zero xs ys h = refl
take-append (suc n) [] ys h = absurd (omega (arith, h))
take-append (suc n) (x ∷ xs) ys h = ap (λ t. x ∷ t) (take-append n xs ys (omega (arith, h)))

drop-append : (n : ℕ) (xs ys : List Text) → drop (length xs + n) (xs ++ ys) ≡ drop n ys
drop-append n [] ys = ap (λ n. drop n ys) (omega arith)
drop-append n (x ∷ xs) ys =
    subst (λ k. drop k (x ∷ (xs ++ ys)) ≡ drop n ys) {x = suc (length xs + n)} (omega arith)
      (drop-append n xs ys)

pub take-length : (xs ys : List Text) → take (length xs) (xs ++ ys) ≡ xs
take-length [] ys = refl
take-length (x ∷ xs) ys = ap (λ t. x ∷ t) (take-length xs ys)

pub drop-length :
    (xs : List Text) (y : Text) (ys : List Text) → drop (suc (length xs)) (xs ++ (y ∷ ys)) ≡ ys
drop-length [] y ys = refl
drop-length (x ∷ xs) y ys = drop-length xs y ys

-- The lines before and after the fence, or all of them.
abbrev pub before : List Text → Option (ℕ × ℕ) → List Text
before ls none = ls
before ls (some (b, e)) = take b ls

abbrev pub behind : List Text → Option (ℕ × ℕ) → List Text
behind ls none = []
behind ls (some (b, e)) = drop (suc e) ls

pub record IsClear (ls : List Text) : Type 0 where
  pub no_begin : Lacks fence_begin ls
  pub no_end : Lacks fence_end ls

fence_split :
    (ls : List Text) (b e : ℕ)
    → positions 0 ls fence_begin ≡ b ∷ []
    → positions 0 ls fence_end ≡ e ∷ []
    → b < e
    → IsClear (take b ls) × IsClear (drop (suc e) ls)
fence_split ls b e p q lt =
    let (pre, post, same, at, l, r) = positions-one fence_begin ls 0 b p in
    let (pre', post', same', at', l', r') = positions-one fence_end ls 0 e q in
    let b_at : b ≡ length pre = omega (arith, at) in
    let e_at : e ≡ length pre' = omega (arith, at') in
    let front : take b ls ≡ pre =
      ap (take b) same
      ∙ ap (λ n. take n (pre ++ (fence_begin ∷ post))) b_at
      ∙ take-length pre (fence_begin ∷ post) in
    let front' : take b ls ≡ take b pre' =
      ap (take b) same' ∙ take-append b pre' (fence_end ∷ post') (omega (arith, e_at, lt)) in
    let tail' : drop (suc e) ls ≡ post' =
      ap (drop (suc e)) same'
      ∙ ap (λ n. drop (suc n) (pre' ++ (fence_end ∷ post'))) e_at
      ∙ drop-length pre' fence_end post' in
    let tail : drop (suc e) ls ≡ drop (e - b) post =
      ap (drop (suc e)) same
      ∙ ap (λ n. drop n (pre ++ (fence_begin ∷ post))) {x = suc e} (omega (arith, b_at, lt))
      ∙ drop-append (suc (e - b)) pre (fence_begin ∷ post) in
    (
      record {
        no_begin = subst (Lacks fence_begin) (sym front) l;
        no_end = subst (Lacks fence_end) (sym front') (Lacks-take fence_end b pre' l');
      },
      record {
        no_begin = subst (Lacks fence_begin) (sym tail) (Lacks-drop fence_begin (e - b) post r);
        no_end = subst (Lacks fence_end) (sym tail') r';
      },
    )

located-cases :
    (bs es : List ℕ) (f : Option (ℕ × ℕ))
    → located bs es ≡ ok f
    → ((bs ≡ []) × (es ≡ []) × (f ≡ none))
      ⊎ ((b : ℕ) × (e : ℕ) × (bs ≡ b ∷ []) × (es ≡ e ∷ []) × (f ≡ some (b, e)) × (b < e))
located-cases [] [] f h = inl (refl, refl, ground (arith, h))
located-cases [] (e ∷ es) f h = absurd (ground (arith, h))
located-cases (b ∷ bs) [] f h = absurd (ground (arith, h))
located-cases (b ∷ []) (e ∷ []) f h = elim (Bool-cases (ltb b e)) [
  | inl l ↦ inr (b, e, refl, refl, ground (arith, h, l), ltb→lt b e l)
  | inr l ↦ absurd (ground (arith, h, l))
]
located-cases (b ∷ []) (e ∷ f' ∷ es) f h = absurd (ground (arith, h))
located-cases (b ∷ c ∷ bs) (e ∷ es) f h = absurd (ground (arith, h))

-- The lines around a fence that was found hold no marker.
pub locate_fence-IsClear :
    (ls : List Text) (f : Option (ℕ × ℕ))
    → locate_fence ls ≡ ok f
    → IsClear (before ls f) × IsClear (behind ls f)
unfolding locate_fence
locate_fence-IsClear ls f h =
    elim (located-cases (positions 0 ls fence_begin) (positions 0 ls fence_end) f h) [
      | inl (p, q, s) ↦
          subst (λ f. IsClear (before ls f) × IsClear (behind ls f)) (sym s)
            (
              record {
                no_begin = Lacks-positions fence_begin ls 0 p;
                no_end = Lacks-positions fence_end ls 0 q;
              },
              record { no_begin = tt; no_end = tt },
            )
      | inr (b, e, p, q, s, lt) ↦
          subst (λ f. IsClear (before ls f) × IsClear (behind ls f)) (sym s)
            (fence_split ls b e p q lt)
    ]

-- A block between lines without markers is found.
pub locate_fence-block :
    (pre keys post : List Text)
    → IsClear pre
    → IsClear keys
    → IsClear post
    → locate_fence (pre ++ (fence_begin ∷ (keys ++ (fence_end ∷ post))))
      ≡ ok (some (length pre, length keys + suc (length pre)))
unfolding locate_fence positions text_compare
locate_fence-block pre keys post a b c =
    let n = length pre in
    let m = length keys + suc n in
    let begins : positions 0 (pre ++ (fence_begin ∷ (keys ++ (fence_end ∷ post)))) fence_begin
        ≡ n ∷ [] =
      positions-append fence_begin pre _ 0 a.no_begin
      ∙ ap (λ i. positions i (fence_begin ∷ (keys ++ (fence_end ∷ post))) fence_begin) {x = n + 0}
          (omega arith)
      ∙ ap (λ t. n ∷ t)
          (positions-append fence_begin keys (fence_end ∷ post) (suc n) b.no_begin
            ∙ positions-Lacks fence_begin post (suc m) c.no_begin) in
    let ends : positions 0 (pre ++ (fence_begin ∷ (keys ++ (fence_end ∷ post)))) fence_end
        ≡ m ∷ [] =
      positions-append fence_end pre _ 0 a.no_end
      ∙ ap (λ i. positions i (fence_begin ∷ (keys ++ (fence_end ∷ post))) fence_end) {x = n + 0}
          (omega arith)
      ∙ positions-append fence_end keys (fence_end ∷ post) (suc n) b.no_end
      ∙ ap (λ t. m ∷ t) (positions-Lacks fence_end post (suc m) c.no_end) in
    ap
      (λ bs.
        located bs (positions 0 (pre ++ (fence_begin ∷ (keys ++ (fence_end ∷ post)))) fence_end))
      begins
    ∙ ap (located (n ∷ [])) ends
    ∙ rw (lt→ltb n m (omega arith)) refl
