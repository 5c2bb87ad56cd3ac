-- ===== src/Sandbox/Capture.antt =====
-- What a capture holds of the streams and of the report.
use verifier_ci.Prelude.{
  ℕ, zero, suc, ◌-◌, ◌≤◌, ◌<◌, ◌≡◌, refl, ap, sym, ◌∙◌, true, false, List, [], ◌∷◌, ◌++◌, arith,
  if◌then◌else◌, ltb, leb, length, length-append, is_empty, Bool-cases, inl, inr, ltb→lt,
}
use verifier_ci.Artifacts.Disk.{Bytes}
use verifier_ci.Sandbox.Execute.{
  Captured, captured, take, drop, min, read_chunk, read_stream, cap_stream, read_report,
}

take-append : (n : ℕ) (xs ys : Bytes) → take n (xs ++ ys) ≡ take n xs ++ take (n - length xs) ys
take-append zero [] ys = ground arith
take-append (suc n) [] ys = ground arith
take-append zero (x ∷ xs) ys = ground arith
take-append (suc n) (x ∷ xs) ys = ground (arith, take-append n xs ys)

take-all : (n : ℕ) (xs : Bytes) → length xs ≤ n → take n xs ≡ xs
take-all zero [] h = refl
take-all zero (x ∷ xs) h = absurd (omega arith)
take-all (suc n) [] h = refl
take-all (suc n) (x ∷ xs) h = ap (λ (t : Bytes). x ∷ t) (take-all n xs (omega arith))

pub length-take :
    (n : ℕ) (xs : Bytes) → length (take n xs) ≡ (if leb n (length xs) then n else length xs)
length-take zero xs = ground arith
length-take (suc n) [] = ground arith
length-take (suc n) (x ∷ xs) = ground (arith, length-take n xs)

take-none : (n : ℕ) (xs : Bytes) → n ≡ 0 → take n xs ≡ []
take-none zero xs h = refl
take-none (suc n) xs h = absurd (omega arith)

take-nil : (n : ℕ) → take n [] ≡ []
take-nil zero = refl
take-nil (suc n) = refl

take-empty : (n m : ℕ) (xs : Bytes) → is_empty (take n xs) ≡ true → (n ≡ 0 → m ≡ 0) → take m xs ≡ []
take-empty n m [] h k = take-nil m
take-empty zero m (x ∷ xs) h k = take-none m (x ∷ xs) (k refl)
take-empty (suc n) m (x ∷ xs) h k = absurd (ground arith)

take-longer : (n m : ℕ) (xs : Bytes) → n ≤ m → m ≤ length (take n xs) → take n xs ≡ take m xs
take-longer n m xs h k = ap (λ (t : ℕ). take t xs) (ground (arith, length-take n xs))

take-drop :
    (n m : ℕ) (xs : Bytes)
    → n ≤ m
    → take n xs ++ take (m - length (take n xs)) (drop n xs) ≡ take m xs
take-drop zero m xs h = ap (λ (t : ℕ). take t xs) (omega arith)
take-drop (suc n) m [] h = ap (λ (t : ℕ). take t []) (omega arith)
take-drop (suc n) zero (x ∷ xs) h = absurd (omega arith)
take-drop (suc n) (suc m) (x ∷ xs) h =
    ap (λ (t : Bytes). x ∷ t)
      (ap (λ (t : ℕ). take n xs ++ take t (drop n xs)) (omega arith)
        ∙ take-drop n m xs (omega arith))

length-drop : (n : ℕ) (xs : Bytes) → is_empty (take n xs) ≡ false → length (drop n xs) < length xs
length-drop zero xs h = absurd (ground arith)
length-drop (suc n) [] h = absurd (ground arith)
length-drop (suc n) (x ∷ xs) h = omega (arith, shorter n xs)
  where
    shorter : (k : ℕ) (ys : Bytes) → length (drop k ys) ≤ length ys
    shorter zero ys = omega arith
    shorter (suc k) [] = omega arith
    shorter (suc k) (y ∷ ys) = omega (arith, shorter k ys)

append-nil : (xs : Bytes) → xs ++ [] ≡ xs
append-nil [] = refl
append-nil (x ∷ xs) = ap (λ (t : Bytes). x ∷ t) (append-nil xs)

append_assoc : (xs ys zs : Bytes) → (xs ++ ys) ++ zs ≡ xs ++ (ys ++ zs)
append_assoc [] ys zs = refl
append_assoc (x ∷ xs) ys zs = ap (λ (t : Bytes). x ∷ t) (append_assoc xs ys zs)

-- What is captured of a stream of which these bytes were read.
abbrev pub capture_of : ℕ → Bytes → Captured
capture_of limit seen = captured (take limit seen) (ltb limit (length seen))

-- The bytes of a stream, to its end.
abbrev pub stream_bytes : List Bytes → Bytes
stream_bytes [] = []
stream_bytes (chunk ∷ chunks) = elim (is_empty chunk) [
  | true ↦ []
  | false ↦ chunk ++ stream_bytes chunks
]

-- A chunk that is not empty.
read_chunk-capture_of :
    (limit : ℕ) (seen : Bytes) (b : ℕ) (bs : Bytes)
    → read_chunk limit (capture_of limit seen) (b ∷ bs) ≡ capture_of limit (seen ++ b ∷ bs)
read_chunk-capture_of limit seen b bs = elim (Bool-cases (ltb (length seen) limit)) [
  | inl room ↦ ground (
    arith,
    take-all limit seen (omega (arith, ltb→lt (length seen) limit room)),
    take-append limit seen (b ∷ bs),
    length-append seen (b ∷ bs),
  )
  | inr full ↦ ground (
    arith,
    length-take limit seen,
    take-append limit seen (b ∷ bs),
    take-none (limit - length seen) (b ∷ bs),
    append-nil (take limit seen),
    length-append seen (b ∷ bs),
  )
]

pub read_stream-capture_of :
    (limit : ℕ) (seen : Bytes) (chunks : List Bytes)
    → read_stream limit (capture_of limit seen) chunks
      ≡ capture_of limit (seen ++ stream_bytes chunks)
unfolding read_stream
read_stream-capture_of limit seen [] = ap (capture_of limit) (sym (append-nil seen))
read_stream-capture_of limit seen ([] ∷ chunks) = ap (capture_of limit) (sym (append-nil seen))
read_stream-capture_of limit seen ((b ∷ bs) ∷ chunks) =
    ap (λ (c : Captured). read_stream limit c chunks) (read_chunk-capture_of limit seen b bs)
    ∙ read_stream-capture_of limit (seen ++ b ∷ bs) chunks
    ∙ ap (capture_of limit) (append_assoc seen (b ∷ bs) (stream_bytes chunks))

pub stream_of-capture_of :
    (limit : ℕ) (chunks : List Bytes)
    → cap_stream limit (read_stream limit (captured [] false) chunks)
      ≡ capture_of limit (stream_bytes chunks)
stream_of-capture_of limit chunks =
    let start : captured [] false ≡ capture_of limit [] = ground (arith, take-nil limit) in
    ap (λ (c : Captured). cap_stream limit (read_stream limit c chunks)) start
    ∙ ap (cap_stream limit) (read_stream-capture_of limit [] chunks)
    ∙ ground (arith, length-take limit (stream_bytes chunks))

-- The loop over a file appends what is below the limit.
pub read_report-take :
    (limit fuel : ℕ) (got rest : Bytes)
    → length rest < fuel
    → length got ≤ limit
    → read_report limit fuel got rest ≡ got ++ take (limit - length got) rest
unfolding read_report
read_report-take limit zero got rest h k = absurd (omega arith)
read_report-take limit (suc fuel) got rest h k =
    let left = limit - length got in
    let n = min 8_192 left in
    let below : n ≤ left = ground arith in
    elim (Bool-cases (is_empty (take n rest))) [
      | inl end ↦
          let step : read_report limit (suc fuel) got rest ≡ got = ground (arith, end) in
          step
          ∙ sym (
              ap (λ (t : Bytes). got ++ t) (take-empty n left rest end (ground arith))
              ∙ append-nil got)
      | inr more ↦ elim (Bool-cases (leb limit (length (got ++ take n rest)))) [
        | inl full ↦
            let step : read_report limit (suc fuel) got rest ≡ got ++ take n rest =
              ground (arith, more, full) in
            step
            ∙ ap (λ (t : Bytes). got ++ t)
                (take-longer n left rest below (ground (arith, length-append got (take n rest))))
        | inr room ↦
            let next = read_report limit fuel (got ++ take n rest) (drop n rest) in
            let step : read_report limit (suc fuel) got rest ≡ next = ground (arith, more, room) in
            step
            ∙ read_report-take limit fuel (got ++ take n rest) (drop n rest)
                (omega (arith, length-drop n rest more)) (ground arith)
            ∙ append_assoc got (take n rest)
                (take (limit - length (got ++ take n rest)) (drop n rest))
            ∙ ap (λ (t : Bytes). got ++ t)
                (ap (λ (t : ℕ). take n rest ++ take t (drop n rest))
                    (omega (arith, length-append got (take n rest)))
                  ∙ take-drop n left rest below)
      ]
    ]
