-- ===== src/Ordering/SloDeadline.antt =====
-- pkg/epp/framework/plugins/flowcontrol/ordering/slodeadline/slo_deadline.go. A time is an integer of
-- nanoseconds. `parse_ms` stands for strconv.ParseInt after strings.TrimSpace.
use Prim.Native.String.{String}
use text.Mathlib.Text.{◌==◌ as str_eq}
use llm_d_inference_schedule.Prelude.{
  ℕ, ◌+◌, ◌-◌, ◌*◌, ◌%◌, ◌^◌, ◌<◌, ◌≤◌, ◌≡◌, ltb, ◌==◌, if◌then◌else◌, Bool, true, false, Option,
  none, some, arith,
}
use llm_d_inference_schedule.Prelude.Int.{ℤ, pos, negsuc, ltb_ℤ, ◌+ℤ◌, pos_part, neg_part}
use llm_d_inference_schedule.Ordering.StrictWeak.{IsStrictWeak}

-- What the policy reads of a request: when it came in, and the x-slo-ttft-ms header, "" if the header
-- is missing; `none` if the request has no inference request, or that has no headers.
pub record SloRequest : Type 0 where
  pub received : ℤ
  pub ttft_header : Option String

-- An item, by its OriginalRequest, which may be nil.
pub record SloItem : Type 0 where
  pub request : Option SloRequest

abbrev pub slo_max_deadline_time : ℤ
slo_max_deadline_time = pos (2 ^ 63 - 1)

-- `time.Duration(ms) * time.Millisecond` for `ms` of at least 0: a product of 64 bits, with its sign.
unfoldable pub milliseconds : ℕ → ℤ
milliseconds ms =
    let bits = (ms * 1000000) % 2 ^ 64 in
    if ltb bits (2 ^ 63) then pos bits else negsuc (2 ^ 64 - bits - 1)

module _ (parse_ms : String → Option ℤ) where
  deadline_of_ms : ℤ → Option ℤ → ℤ
  deadline_of_ms received none = slo_max_deadline_time
  deadline_of_ms received (some (negsuc n)) = slo_max_deadline_time
  deadline_of_ms received (some (pos ms)) = received +ℤ milliseconds ms

  deadline_of_header : ℤ → Option String → ℤ
  deadline_of_header received none = slo_max_deadline_time
  deadline_of_header received (some header) =
      if str_eq header "" then slo_max_deadline_time else deadline_of_ms received (parse_ms header)

  unfoldable pub calculate_slo_deadline : SloItem → ℤ
  unfolding deadline_of_ms deadline_of_header
  calculate_slo_deadline x = elim x.request [
    | none ↦ slo_max_deadline_time
    | some req ↦ deadline_of_header req.received req.ttft_header
  ]

  -- The tie-breaker, on the two requests.
  unfoldable pub received_before : Option SloRequest → Option SloRequest → Bool
  received_before none b = false
  received_before (some a) none = true
  received_before (some a) (some b) = ltb_ℤ a.received b.received

  abbrev eq_ℤ : ℤ → ℤ → Bool
  eq_ℤ a b = pos_part a + neg_part b == pos_part b + neg_part a

  unfoldable pub slo_less : Option SloItem → Option SloItem → Bool
  slo_less none b = false
  slo_less (some a) none = true
  slo_less (some a) (some b) =
      if eq_ℤ (calculate_slo_deadline a) (calculate_slo_deadline b)
      then received_before a.request b.request
      else ltb_ℤ (calculate_slo_deadline a) (calculate_slo_deadline b)

  -- The policy is a strict weak order of items, whatever is nil and whatever the headers say.
  pub slo_less-IsStrictWeak : IsStrictWeak slo_less
  unfolding slo_less received_before
  slo_less-IsStrictWeak = record {
    irreflexive = λ a. ground arith;
    transitive = λ a b c. ground arith;
    comparable = λ a b c. ground arith;
  }

  -- A header of `ms` milliseconds puts the deadline `ms` after the arrival, while the product fits in 63
  -- bits. From there to 64 bits it wraps, and puts the deadline before the arrival.
  pub slo_deadline_cases :
      (x : SloItem) (req : SloRequest) (header : String) (ms : ℕ)
      → x.request ≡ some req
      → req.ttft_header ≡ some header
      → str_eq header "" ≡ false
      → parse_ms header ≡ some (pos ms)
      → (ms * 1000000 < 2 ^ 63 → calculate_slo_deadline x ≡ req.received +ℤ pos (ms * 1000000))
        × (2 ^ 63 ≤ ms * 1000000
            → ms * 1000000 < 2 ^ 64
            → ltb_ℤ (calculate_slo_deadline x) req.received ≡ true)
  unfolding calculate_slo_deadline milliseconds ◌+ℤ◌
  slo_deadline_cases x req header ms e e' ne parsed = (ground arith, ground arith)
