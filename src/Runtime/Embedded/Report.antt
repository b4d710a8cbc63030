-- ===== src/Runtime/Embedded/Report.antt =====
-- internal/runtime/embedded.go: a report of the traffic, and its confirmation later on.
use v2sudoku.Prelude.{
  ℕ, ◌+◌, ◌<◌, ◌^◌, ◌≡◌, refl, ◌∙◌, ap, ℤ, pos, String, List, [], ◌∷◌, nat_eq, int_eq, string_eq,
  arith, Option-cases, inl, inr, ◌⊎◌, sub64_exact,
}
use v2sudoku.Dict.{lookup}
use v2sudoku.Panel.{UserTraffic}
use v2sudoku.Runtime.Counting.{settle}
use v2sudoku.Runtime.Counting.Laws.{IsHeap}
use v2sudoku.Runtime.Embedded.{Embedded, threshold_of, get_user_traffic_slice, confirm_user_traffic}
use v2sudoku.Runtime.Embedded.Shape.{IsShaped, HasCounter}
use v2sudoku.Runtime.Embedded.Traffic.{traffic}
use v2sudoku.Runtime.Embedded.Rows.{
  only, row_for, AtMostOne, traffic_row-AtMostOne, traffic_row-value,
  get_user_traffic_slice-IsNamed, only-get_user_traffic_slice,
}
use v2sudoku.Runtime.Embedded.Confirm.{settled, confirm-settled}

-- An amount that the counter has reached is taken off exactly.
pub settle_exact : (u a : ℕ) → u + a < 2 ^ 63 → settle (pos u) (pos (u + a)) ≡ pos a
settle_exact u a fits = ground (arith, sub64_exact (u + a) u fits)

one-or-none :
    (ts : List UserTraffic) → AtMostOne ts → (ts ≡ []) ⊎ ((t : UserTraffic) × (ts ≡ t ∷ []))
one-or-none [] one = inl refl
one-or-none (t ∷ []) one = inr (t, refl)
one-or-none (t ∷ u ∷ ts) one = absurd one

-- The rows of a user are none, or one with the traffic that the engine holds.
pub slice-cases :
    (report_min : ℤ) (e : Embedded) (v : String)
    → IsShaped e
    → (only v (get_user_traffic_slice report_min e) ≡ [])
      ⊎ ((t : UserTraffic) × (only v (get_user_traffic_slice report_min e) ≡ t ∷ [])
          × (◌≡◌ {A = ℤ × ℤ} (t.upload, t.download) (traffic v e)))
slice-cases report_min e v h =
    let rows = only-get_user_traffic_slice report_min e v h in
    elim (Option-cases (lookup v e.counters.table)) [
      | inl missing ↦ inl (rows ∙ rw missing)
      | inr (p, found) ↦
          let row = rows ∙ ap (λ o. row_for (threshold_of report_min) e o v) found in
          elim (one-or-none _ (traffic_row-AtMostOne (threshold_of report_min) e v p)) [
            | inl none_made ↦ inl (row ∙ none_made)
            | inr (t, made) ↦
                let (up, down, _) = traffic_row-value (threshold_of report_min) e v p t made in
                inr (t, row ∙ made, ground (arith, up, down, found))
          ]
    ]

-- Traffic is reported on a well-formed engine; later, when the report is confirmed, the engine's
-- counters are well formed too, the user still has one, and it has grown by `a` and `b`, whatever
-- else has happened. If the sums fit 63 bits, then either the user had no row and the confirmation
-- leaves the counter, or the user had one row, with the traffic at the time of the report, and the
-- confirmation leaves exactly `a` and `b`: no byte is lost, and none is reported twice.
pub report_then_confirm :
    (report_min : ℤ) (e e' : Embedded) (v : String) (u d a b : ℕ)
    → IsShaped e
    → IsHeap e'.counters
    → HasCounter e'.counters v
    → traffic v e ≡ (pos u, pos d)
    → traffic v e' ≡ (pos (u + a), pos (d + b))
    → u + a < 2 ^ 63
    → d + b < 2 ^ 63
    → let rows = get_user_traffic_slice report_min e in
      let after = traffic v (confirm_user_traffic rows e') in
      ((only v rows ≡ []) × (after ≡ (pos (u + a), pos (d + b))))
      ⊎ ((t : UserTraffic) × (only v rows ≡ t ∷ [])
          × (◌≡◌ {A = ℤ × ℤ} (t.upload, t.download) (pos u, pos d))
          × (after ≡ (pos a, pos b)))
unfolding settled
report_then_confirm report_min e e' v u d a b shaped heap has_one was grew up_fits down_fits =
    let named = get_user_traffic_slice-IsNamed report_min e shaped in
    let done = confirm-settled (get_user_traffic_slice report_min e) e' v named heap has_one in
    elim (slice-cases report_min e v shaped) [
      | inl none_made ↦ inl (none_made, done ∙ rw (none_made, grew))
      | inr (t, one, value) ↦
          let reported = value ∙ was in
          inr (
            t,
            one,
            reported,
            done
                ∙ ap (λ ts. settled ts (traffic v e')) one
                ∙ rw (
                  grew,
                  ap (λ x. x.0) reported,
                  ap (λ x. x.1) reported,
                  settle_exact u a up_fits,
                  settle_exact d b down_fits,
                ),
          )
    ]
