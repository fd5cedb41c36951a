-- ===== src/Protocol/Tests.antt =====
-- A print of the requests of core/src/proto.rs as numbers, each text behind its length.
use lychgate.Prelude.{
  ℕ, zero, suc, ◌≡◌, refl, ◌∙◌, [], ◌∷◌, ◌++◌, Option, none, some, ok, length, take, drop, arith,
  ap,
}
use lychgate.Prelude.Text.{Text, bytes}
use lychgate.Protocol.{
  Op, RequestWire, Json, Prints, encode_request, decode_request, decode_request-encode_request,
}

abbrev put : Option Text → Text → Text
put none rest = 0 ∷ rest
put (some t) rest = 1 ∷ length t ∷ (t ++ rest)

abbrev take_field : Text → Option (Option Text × Text)
take_field [] = none
take_field (zero ∷ s) = some (none, s)
take_field (suc k ∷ []) = none
take_field (suc k ∷ n ∷ s) = some (some (take n s), drop n s)

abbrev print : RequestWire → Text
print w = w.proto ∷ put (some w.op) (put w.host (put w.ttl (put w.token (put w.profile []))))

abbrev next : {A : Type 0} → Text → (Option Text → Text → Option A) → Option A
next s k = elim (take_field s) [ none ↦ none | some (t, rest) ↦ k t rest ]

abbrev filled : ℕ → (op host ttl token profile : Option Text) → Text → Option RequestWire
filled proto none host ttl token profile s = none
filled proto (some op) host ttl token profile s =
    some
      (record { proto = proto; op = op; host = host; ttl = ttl; token = token; profile = profile })

abbrev after_ttl : ℕ → (op host ttl : Option Text) → Text → Option RequestWire
after_ttl proto op host ttl s = next s (λ token s. next s (filled proto op host ttl token))

abbrev after_op : ℕ → (op : Option Text) → Text → Option RequestWire
after_op proto op s = next s (λ host s. next s (after_ttl proto op host))

abbrev plain : Json
plain = record {
  probe = λ s. elim s [ [] ↦ none | v ∷ _ ↦ some (some v) ];
  strict = λ s. elim s [ [] ↦ none | v ∷ s ↦ next s (after_op v) ];
  print = print;
}

take_append :
    (t rest : Text) → (take (length t) (t ++ rest) ≡ t) × (drop (length t) (t ++ rest) ≡ rest)
take_append [] rest = (refl, refl)
take_append (c ∷ t) rest = let (a, b) = take_append t rest in (ap (λ t. c ∷ t) a, b)

next-put :
    {A : Type 0} (o : Option Text) (rest : Text) (k : Option Text → Text → Option A)
    → next (put o rest) k ≡ k o rest
next-put none rest k = refl
next-put (some t) rest k = let (a, b) = take_append t rest in rw a (rw b refl)

strict-print : (w : RequestWire) → plain.strict (plain.print w) ≡ some w
strict-print w =
    let last = put w.profile [] in
    let third = put w.token last in
    let second = put w.ttl third in
    let first = put w.host second in
    next-put (some w.op) first (after_op w.proto)
    ∙ next-put w.host second (λ host s. next s (after_ttl w.proto (some w.op) host))
    ∙ next-put w.ttl third (after_ttl w.proto (some w.op) w.host)
    ∙ next-put w.token last (λ token s. next s (filled w.proto (some w.op) w.host w.ttl token))
    ∙ next-put w.profile [] (filled w.proto (some w.op) w.host w.ttl w.token)

plain-Prints : Prints plain
plain-Prints = record { probed = λ w. refl; read = λ w. strict-print w }

abbrev asked : Op
asked = Op.open_host (bytes "a") (bytes "5m") (some (bytes "p"))

decode_request-encode_request_example : decode_request plain (encode_request plain asked) ≡ ok asked
unfolding encode_request
decode_request-encode_request_example =
    decode_request-encode_request plain asked plain-Prints (ground arith)
