-- ===== src/Http/Middleware.antt =====
-- internal/adapters/httpapi/metrics_middleware.go: the response writer that keeps the start of a
-- body, and what is reported of a request.
use mathlib.Core.List.{append-nil, append_assoc}
use mailservice.Prelude.{
  ℕ, zero, suc, ◌-◌, ◌≤◌, ◌≡◌, refl, sym, ap, ◌∙◌, inl, inr, not, ◌&&◌, List, [], ◌∷◌, ◌++◌, ltb,
  leb, ◌==◌, if◌then◌else◌, length, take, take_all, Bytes, codes, Bool-cases, arith,
}
use mailservice.Text.{is_empty}
use mailservice.EdProof.Decimal.{nonneg}
use mailservice.Metrics.TopN.{inc}
use mailservice.Metrics.Histogram.{observe}
use mailservice.Metrics.Registry.{Registry, on_histogram, on_top_n}

abbrev pub kept_body_len : ℕ
kept_body_len = 200

-- metricsResponseWriter, without the writer that it wraps
pub record MetricsResponseWriter : Type 0 where
  pub status_code : ℕ
  pub body : Bytes

-- `remaining` in Write, for a body and a limit
abbrev pub remaining : ℕ → Bytes → Bytes → ℕ
remaining limit body chunk =
    if ltb (length chunk) (limit - length body) then length chunk else limit - length body

-- The body after a call of Write
unfoldable pub keep_start : ℕ → Bytes → Bytes → Bytes
keep_start limit body chunk =
    if ltb (length body) limit then body ++ take (remaining limit body chunk) chunk else body

-- metricsResponseWriter.WriteHeader
unfoldable pub write_header : ℕ → MetricsResponseWriter → MetricsResponseWriter
write_header status_code w = record w { status_code = status_code }

-- metricsResponseWriter.Write
unfoldable pub write_data : Bytes → MetricsResponseWriter → MetricsResponseWriter
write_data chunk w = record w {
  status_code = if w.status_code == 0 then 200 else w.status_code;
  body = keep_start kept_body_len w.body chunk;
}

unfoldable pub write_each : List Bytes → MetricsResponseWriter → MetricsResponseWriter
write_each [] w = w
write_each (chunk ∷ rest) w = write_each rest (write_data chunk w)

-- NewHTTPMiddleware behind the handler, which took `ms` milliseconds: the latency is observed, and
-- an answer of status 500 or more that has a body is counted.
unfoldable pub report_request : ℕ → MetricsResponseWriter → Registry → Registry
report_request ms w r =
    let timed = on_histogram (observe (nonneg ms)) (codes "http_latency_ms") r in
    if leb 500 w.status_code && not (is_empty w.body)
    then on_top_n (inc w.body) (codes "top_errors") timed
    else timed

-- All that was written
unfoldable pub written : List Bytes → Bytes
written [] = []
written (chunk ∷ rest) = chunk ++ written rest

take_long : (k : ℕ) (s : Bytes) → length s ≤ k → take k s ≡ s
take_long zero [] h = refl
take_long zero (c ∷ s) h = absurd (omega (arith, h))
take_long (suc k) [] h = refl
take_long (suc k) (c ∷ s) h = ap (λ t. c ∷ t) (take_long k s (omega (arith, h)))

take_min :
    (k : ℕ) (chunk : Bytes)
    → take (if ltb (length chunk) k then length chunk else k) chunk ≡ take k chunk
take_min k chunk = elim (Bool-cases (ltb (length chunk) k)) [
  | inl short ↦ rw short (take_all chunk ∙ sym (take_long k chunk (ground arith)))
  | inr long ↦ rw long refl
]

suc_minus : (n : ℕ) → suc n - 0 ≡ suc n
suc_minus n = omega arith

both_suc : (n m : ℕ) → suc n - suc m ≡ n - m
both_suc n m = omega arith

take-split :
    (n : ℕ) (s chunk : Bytes) → take n s ++ take (n - length (take n s)) chunk ≡ take n (s ++ chunk)
take-split zero s chunk = refl
take-split (suc n) [] chunk = ap (λ k. take k chunk) (suc_minus n)
take-split (suc n) (c ∷ s) chunk =
    ap (λ k. c ∷ take n s ++ take k chunk) (both_suc n (length (take n s)))
    ∙ ap (λ t. c ∷ t) (take-split n s chunk)

full-split : (n : ℕ) (s chunk : Bytes) → n ≤ length (take n s) → take n s ≡ take n (s ++ chunk)
full-split n s chunk h =
    let none_left : n - length (take n s) ≡ 0 = omega (arith, h) in
    sym (append-nil (take n s))
    ∙ ap (λ k. take n s ++ take k chunk) (sym none_left)
    ∙ take-split n s chunk

keep_start-take : (n : ℕ) (s chunk : Bytes) → keep_start n (take n s) chunk ≡ take n (s ++ chunk)
unfolding keep_start
keep_start-take n s chunk = elim (Bool-cases (ltb (length (take n s)) n)) [
  | inl room ↦
      rw room
        (ap (λ t. take n s ++ t) (take_min (n - length (take n s)) chunk) ∙ take-split n s chunk)
  | inr full ↦ rw full (full-split n s chunk (ground arith))
]

written-take :
    (n : ℕ) (chunks : List Bytes) (s : Bytes) (w : MetricsResponseWriter)
    → n ≡ kept_body_len
    → w.body ≡ take n s
    → (write_each chunks w).body ≡ take n (s ++ written chunks)
unfolding write_each write_data written
written-take n [] s w known h = h ∙ ap (take n) (sym (append-nil s))
written-take n (chunk ∷ rest) s w known h =
    written-take n rest (s ++ chunk) (write_data chunk w) known (
      ap (λ k. keep_start k w.body chunk) (sym known)
      ∙ ap (λ b. keep_start n b chunk) h
      ∙ keep_start-take n s chunk)
    ∙ ap (take n) (append_assoc s chunk (written rest))

-- However a handler cuts its body into writes, the middleware keeps the first 200 bytes of it.
pub write_each-take :
    (chunks : List Bytes) (status_code : ℕ)
    → (write_each chunks (record { status_code = status_code; body = [] })).body
      ≡ take kept_body_len (written chunks)
write_each-take chunks status_code =
    written-take kept_body_len chunks [] (record { status_code = status_code; body = [] }) refl refl
