-- ===== src/Main/Log/Line.antt =====
-- main.go: what a line of the log looks like, and what it depends on.
use Prim.Native.Char.{code}
use mathlib.Core.List.{Perm}
use text.Mathlib.TextLemmas.{nil-append, cons-append, append_assoc}
use v2sudoku.Prelude.{
  ◌≡◌, refl, sym, ap, ◌∙◌, String, string_eq, List, [], ◌∷◌, Bool, false, ◌||◌, Option, map,
  nat_beq, Bool-cases, inl, inr, All, arith,
}
use v2sudoku.Dict.{lookup}
use v2sudoku.Text.{is_empty, ◌+s+◌}
use v2sudoku.Text.Order.{sort_strings, sort_strings-Perm, sort_strings-All}
use v2sudoku.Main.Log.{Entry, Printing, needs_quotes, compact_log_value, key_values, format}

module _ {V : Type 0} (printing : Printing V) where
  key_values-same :
      (d1 d2 : List (String × V)) (keys : List String)
      → ((key : String) → lookup key d1 ≡ lookup key d2)
      → key_values printing d1 keys ≡ key_values printing d2 keys
  unfolding key_values
  key_values-same d1 d2 [] same = refl
  key_values-same d1 d2 (key ∷ keys) same = rw (same key, key_values-same d1 d2 keys same) refl

  -- A line does not depend on the order in which Go ranges over the fields of the entry.
  pub format-Perm :
      (entry : Entry V) (fields : List (String × V))
      → Perm (map (λ f. f.0) entry.fields) (map (λ f. f.0) fields)
      → ((key : String) → lookup key entry.fields ≡ lookup key fields)
      → format printing entry ≡ format printing (record entry { fields = fields })
  unfolding format
  format-Perm entry fields keys same =
      rw
        (
          sort_strings-Perm _ _ keys,
          key_values-same entry.fields fields (sort_strings (map (λ f. f.0) fields)) same,
        )
        refl

-- Whether a line ends within a text.
unfoldable pub has_newline : String → Bool
has_newline String.[] = false
has_newline (String.◌∷◌ c s) = nat_beq (code c) 10 || has_newline s

has_newline-append : (s t : String) → has_newline (s +s+ t) ≡ has_newline s || has_newline t
unfolding has_newline
has_newline-append String.[] t = ap has_newline (nil-append t)
has_newline-append (String.◌∷◌ c s) t =
    ap has_newline (cons-append c s t) ∙ ground (arith, has_newline-append s t)

-- A text of one line, and its end.
abbrev pub IsLine : String → Type 0
IsLine s = (line : String) × (s ≡ line +s+ "\n") × (has_newline line ≡ false)

abbrev pub IsPlain : String → Type 0
IsPlain s = has_newline s ≡ false

IsPlain-append : (s t : String) → IsPlain s → IsPlain t → IsPlain (s +s+ t)
IsPlain-append s t h k = has_newline-append s t ∙ ground (arith, h, k)

IsLine-append : (a s : String) → has_newline a ≡ false → IsLine s → IsLine (a +s+ s)
IsLine-append a s h (line, same, one) = (
  a +s+ line,
  ap (λ t. a +s+ t) same ∙ sym (append_assoc a line "\n"),
  has_newline-append a line ∙ ground (arith, h, one),
)

has_newline-needs_quotes : (s : String) → needs_quotes s ≡ false → has_newline s ≡ false
unfolding has_newline needs_quotes
has_newline-needs_quotes String.[] h = refl
has_newline-needs_quotes (String.◌∷◌ c s) h =
    let rest : needs_quotes s ≡ false = ground arith in
    ground (arith, has_newline-needs_quotes s rest)

module _ {V : Type 0} (printing : Printing V)
    (quoted : (text : String) → has_newline (printing.quote text) ≡ false) where
  compact_log_value-one_line :
      (value : Option V) → has_newline (compact_log_value printing value) ≡ false
  unfolding compact_log_value
  compact_log_value-one_line value = elim (Bool-cases (is_empty (printing.sprint value))) [
    | inl blank ↦ rw blank (quoted (printing.sprint value))
    | inr filled ↦ elim (Bool-cases (needs_quotes (printing.sprint value))) [
      | inl odd ↦ rw (filled, odd) (quoted (printing.sprint value))
      | inr plain ↦ rw (filled, plain) (has_newline-needs_quotes (printing.sprint value) plain)
    ]
  ]

  key_values-one_line :
      (fields : List (String × V)) (keys : List String)
      → All IsPlain keys
      → has_newline (key_values printing fields keys) ≡ false
  unfolding key_values has_newline
  key_values-one_line fields [] h = refl
  key_values-one_line fields (key ∷ keys) h =
      let value = compact_log_value printing (lookup key fields) in
      let rest = key_values printing fields keys in
      IsPlain-append " " (key +s+ "=" +s+ value +s+ rest) refl (
        IsPlain-append key ("=" +s+ value +s+ rest) h.0 (
          IsPlain-append "=" (value +s+ rest) refl (
            IsPlain-append value rest (compact_log_value-one_line (lookup key fields))
              (key_values-one_line fields keys h.1))))

  -- If what `strconv.Quote` gives has no newline, and neither have the time, the level, the message and the
  -- keys, then what is written for an entry is one line, whatever the values are.
  pub format-IsLine :
      (entry : Entry V)
      → IsPlain entry.time
      → IsPlain (printing.to_upper entry.level)
      → IsPlain entry.message
      → All IsPlain (map (λ f. f.0) entry.fields)
      → IsLine (format printing entry)
  unfolding format has_newline
  format-IsLine entry time level message keys =
      let sorted = sort_strings (map (λ f. f.0) entry.fields) in
      let level_text = printing.to_upper entry.level in
      let tail_ = key_values printing entry.fields sorted +s+ "\n" in
      IsLine-append entry.time _ time (
        IsLine-append " " _ refl (
          IsLine-append "[" _ refl (
            IsLine-append level_text _ level (
              IsLine-append "] " _ refl (
                IsLine-append entry.message tail_ message (
                  IsLine-append (key_values printing entry.fields sorted) "\n"
                    (key_values-one_line entry.fields sorted (sort_strings-All IsPlain _ keys))
                    ("", sym (nil-append "\n"), refl)))))))
